-- ===== src/Registry.antt =====
-- registry.go: the table of hosts with their states, hit counters and flow rings. Each method holds
-- the mutex from its first access to its last, so it is one function from state to state.
pub mod Ring
pub mod Spec
pub mod Refinement
pub mod Invariant
pub mod Listing
pub mod Promotion
use skytap.Common.{
  ℕ, suc, ◌+◌, ◌-◌, ◌%◌, ◌^◌, Bool, List, [], ◌∷◌, ◌++◌, Option, none, some, map, length, drop, ltb,
  is_empty, is_some, or_zero, if◌then◌else◌,
}
use skytap.Text.{Str, codes}
use skytap.GoMap
use skytap.GoMap.{GoMap}

-- The type is a string: a value outside the three constants is possible.
abbrev pub DomainState : Type 0
DomainState = Str

abbrev pub observed : DomainState
observed = codes "OBSERVED"

abbrev pub intercepted : DomainState
intercepted = codes "INTERCEPTED"

abbrev pub mocked : DomainState
mocked = codes "MOCKED"

pub record DomainInfo : Type 0 where
  pub host : Str
  pub state : DomainState
  pub hits : ℕ

-- `F` is gomitm.Flow, a type of another package. A hit counter is the bit pattern of an int64.
pub record Registry (F : Type 0) : Type 0 where
  pub states : GoMap DomainState
  pub hits : GoMap ℕ
  pub flows : GoMap (List F)
  pub ring_n : ℕ

abbrev pub int64_mod : ℕ
int64_mod = 2 ^ 64

-- The last `n` of a buffer that has grown by one.
unfoldable pub trim_ring {ℓ} : {A : Type ℓ} → ℕ → List A → List A
trim_ring n buf = if ltb n (length buf) then drop (length buf - n) buf else buf

module _ {F : Type 0} where
  abbrev pub new_registry : Registry F
  new_registry = record { states = []; hits = []; flows = []; ring_n = 64 }

  unfoldable pub observe : Registry F → Str → Registry F
  observe r host = if is_empty host then r else record r {
    states =
        if is_some (GoMap.get r.states host) then r.states else GoMap.put r.states host observed;
    hits = GoMap.put r.hits host ((or_zero 0 (GoMap.get r.hits host) + 1) % int64_mod);
  }

  unfoldable pub state : Registry F → Str → DomainState
  state r host = or_zero observed (GoMap.get r.states host)

  unfoldable pub set_state : Registry F → Str → DomainState → Registry F
  set_state r host s = record r { states = GoMap.put r.states host s }

  unfoldable pub flows_of : Registry F → Str → List F
  flows_of r host = or_zero [] (GoMap.get r.flows host)

  unfoldable pub domains : Registry F → List DomainInfo
  domains r =
      map (λ e. record { host = e.0; state = e.1; hits = or_zero 0 (GoMap.get r.hits e.0) })
        r.states

  unfoldable pub snapshot : Registry F → GoMap DomainState
  snapshot r = r.states

  unfoldable pub load_states : Registry F → GoMap DomainState → Registry F
  load_states r m = record r { states = GoMap.merge r.states m }

  unfoldable pub delete_host : Registry F → Str → Registry F
  delete_host r host = if is_empty host then r else record r {
    states = GoMap.delete r.states host;
    hits = GoMap.delete r.hits host;
    flows = GoMap.delete r.flows host;
  }

  unfoldable pub clear_flows : Registry F → Str → Registry F
  clear_flows r host =
      if is_empty host
      then record r { flows = [] }
      else record r { flows = GoMap.delete r.flows host }

  unfoldable pub reset : Registry F → Registry F
  reset r = record r { states = []; hits = []; flows = [] }

-- `host_of` reads the field Host of a flow.
module _ {F : Type 0} (host_of : F → Str) where
  unfoldable pub add_flow : Registry F → F → Registry F
  unfolding trim_ring
  add_flow r f =
      let buf = or_zero [] (GoMap.get r.flows (host_of f)) ++ f ∷ [] in
      record r { flows = GoMap.put r.flows (host_of f) (trim_ring r.ring_n buf) }
