-- ===== src/Registry/Spec.antt =====
-- The registry as a client sees it: sequences of its calls, and a specification over unbounded
-- histories that they are measured against.
use skytap.Common.{ℕ, ◌+◌, List, [], ◌∷◌, ◌++◌, Option, none, some, is_empty, if◌then◌else◌}
use skytap.Text.{Str, ◌==◌}
use skytap.GoMap
use skytap.GoMap.{GoMap, IsMap}
use skytap.GoMap.Merge.{or_else}
use skytap.Registry
use skytap.Registry.{Registry, DomainState, observed}

-- The calls that change a registry. A Go map given to loadStates has one entry for each key.
pub data Event (F : Type 0) : Type 0 where
  observe : Str → Event F
  set_state : Str → DomainState → Event F
  add_flow : F → Event F
  load_states : (m : GoMap DomainState) → IsMap m → Event F
  delete_host : Str → Event F
  clear_flows : Str → Event F
  reset : Event F

-- Without wrap-around and without a bound: what is known of each host.
pub record Ledger (F : Type 0) : Type 0 where
  pub state_of : Str → Option DomainState
  pub hits_of : Str → ℕ
  pub history : Str → List F

abbrev pub blank : {F : Type 0} → Ledger F
blank = record { state_of = λ h. none; hits_of = λ h. 0; history = λ h. [] }

module _ {F : Type 0} (host_of : F → Str) where
  unfoldable pub step : Registry F → Event F → Registry F
  step r (observe host) = Registry.observe r host
  step r (set_state host s) = Registry.set_state r host s
  step r (add_flow f) = Registry.add_flow host_of r f
  step r (load_states m _) = Registry.load_states r m
  step r (delete_host host) = Registry.delete_host r host
  step r (clear_flows host) = Registry.clear_flows r host
  step r reset = Registry.reset r

  unfoldable pub run : Registry F → List (Event F) → Registry F
  run r [] = r
  run r (e ∷ es) = run (step r e) es

  unfoldable pub record_event : Ledger F → Event F → Ledger F
  record_event a (observe host) = if is_empty host then a else record a {
    state_of = λ h. if host == h then or_else (a.state_of h) (some observed) else a.state_of h;
    hits_of = λ h. if host == h then a.hits_of h + 1 else a.hits_of h;
  }
  record_event a (set_state host s) = record a {
    state_of = λ h. if host == h then some s else a.state_of h;
  }
  record_event a (add_flow f) = record a {
    history = λ h. if host_of f == h then a.history h ++ f ∷ [] else a.history h;
  }
  record_event a (load_states m _) = record a {
    state_of = λ h. or_else (GoMap.get m h) (a.state_of h);
  }
  record_event a (delete_host host) = if is_empty host then a else record {
    state_of = λ h. if host == h then none else a.state_of h;
    hits_of = λ h. if host == h then 0 else a.hits_of h;
    history = λ h. if host == h then [] else a.history h;
  }
  record_event a (clear_flows host) = record a {
    history = λ h. if is_empty host then [] else if host == h then [] else a.history h;
  }
  record_event a reset = blank

  unfoldable pub record_all : Ledger F → List (Event F) → Ledger F
  record_all a [] = a
  record_all a (e ∷ es) = record_all (record_event a e) es
