-- ===== src/App.antt =====
-- app.go: the decisions that the interception engine asks for, and the pin-bypass switch.
pub mod Decisions
use skytap.Common.{
  ℕ, Bool, true, false, ◌||◌, List, [], ◌∷◌, ◌++◌, Option, none, some, is_empty, if◌then◌else◌,
}
use skytap.Text.{Str, codes, ◌==◌, Unicode, trim_space}
use skytap.Http.{Request, Response}
use skytap.Script.{Engines}
use skytap.Registry
use skytap.Registry.{Registry, DomainState, intercepted, mocked}
use skytap.Rules.{Rule, RuleEngine, JsonObjects, match_rule, is_rewrite, match, apply_rewrite}
use skytap.Ws.{Hub, publish}
use skytap.Disk.{Disk, join, read_file, write_file}

-- gomitm.Action, as far as OnConnect answers it.
pub data Action : Type 0 where
  terminate passthrough : Action

-- The test of OnConnect and of OnRequest.
unfoldable pub is_decrypted : DomainState → Bool
is_decrypted st = st == intercepted || st == mocked

unfoldable pub on_connect : {F : Type 0} → Registry F → Str → Registry F × Action
unfolding is_decrypted
on_connect reg host =
    let reg' = Registry.observe reg host in
    (reg', if is_decrypted (Registry.state reg' host) then terminate else passthrough)

module _ (u : Unicode) where
  -- r != nil && strings.EqualFold(r.Action, "rewrite")
  unfoldable pub if_rewrite : Option Rule → Option Rule
  if_rewrite none = none
  if_rewrite (some r) = if is_rewrite u r then some r else none

module _ (u : Unicode) (engines : Engines) (json : JsonObjects) where
  -- OnRequest reads the state, then the rules, and Match reads the rules again, each under its own
  -- lock: `st`, `e` and `e'` are what the three reads see.
  unfoldable pub decide :
      DomainState → RuleEngine → RuleEngine → Str → Request → Option Response × Request
  unfolding is_decrypted if_rewrite
  decide st e e' host req = elim (if_rewrite u (match_rule u e host req)) [
    | some r ↦ (none, if is_decrypted st then apply_rewrite u engines json req r else req)
    | none ↦ if st == mocked then (match u engines e' host req, req) else (none, req)
  ]

  unfoldable pub on_request :
      {F : Type 0} → Registry F → RuleEngine → Str → Request → Option Response × Request
  unfolding decide
  on_request reg e host req = decide (Registry.state reg host) e e host req

abbrev pub pin_file : Str
pin_file = codes "pin-bypass"

-- SetPinBypass: the flag and the file of the data directory.
unfoldable pub set_pin_bypass : Str → Disk → Bool → Disk × Bool
set_pin_bypass dir d v = if is_empty dir then (d, v) else (
  (write_file d (join dir pin_file) (if v then codes "1" ++ 10 ∷ [] else codes "0" ++ 10 ∷ [])).0,
  v,
)

unfoldable pub load_pin_bypass : Unicode → Str → Disk → Bool
load_pin_bypass u dir d = elim (read_file d (join dir pin_file)) [
  | none ↦ false
  | some b ↦ trim_space u b == codes "1"
]

-- OnFlow: the registry, then the hub if there is one. `text` is the JSON text of the flow, if it can
-- be made.
unfoldable pub on_flow :
    {F : Type 0} (host_of : F → Str) (text : F → Option Str)
    → Registry F
    → Option Hub
    → F
    → Registry F × Option Hub
on_flow host_of text reg none f = (Registry.add_flow host_of reg f, none)
on_flow host_of text reg (some hub) f =
    (Registry.add_flow host_of reg f, some (publish hub (text f)))
