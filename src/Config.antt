-- ===== src/Config.antt =====
-- config.go: the files state.json and rules.json of the data directory.
pub mod RoundTrip
use skytap.Common.{
  ℕ, Bool, true, false, not, List, [], ◌∷◌, Option, none, some, is_some, if◌then◌else◌,
}
use skytap.Text.{Str, codes}
use skytap.GoMap.{GoMap}
use skytap.Registry
use skytap.Registry.{Registry, DomainState}
use skytap.Rules
use skytap.Rules.{Rule, RuleEngine}
use skytap.Disk.{Disk, join, read_file, write_file, mkdir_all}

-- encoding/json on the two files. Reading state.json may find no map of states.
pub record Codec : Type 0 where
  pub encode_states : GoMap DomainState → Option Str
  pub decode_states : Str → Option (Option (GoMap DomainState))
  pub encode_rules : List Rule → Option Str
  pub decode_rules : Str → Option (List Rule)

abbrev pub state_file : Str
state_file = codes "state.json"

abbrev pub rules_file : Str
rules_file = codes "rules.json"

unfoldable pub persist_exists : Str → Disk → Bool
persist_exists dir d = is_some (read_file d (join dir state_file))

module _ (codec : Codec) where
  open codec use {encode_states, decode_states, encode_rules, decode_rules}

  -- p.States of a state.json that can be read
  unfoldable pub saved_states : Option Str → Option (GoMap DomainState)
  saved_states none = none
  saved_states (some b) = elim (decode_states b) [ none ↦ none | some states ↦ states ]

  unfoldable pub saved_rules : Option Str → Option (List Rule)
  saved_rules none = none
  saved_rules (some b) = decode_rules b

  -- The answer is false for an error. `random` is what Set draws.
  unfoldable pub load_persist :
      {F : Type 0}
      → (ℕ → Str)
      → Str
      → Disk
      → Registry F
      → RuleEngine
      → Registry F × RuleEngine × Bool
  unfolding saved_states saved_rules
  load_persist random dir d reg rules =
      if mkdir_all d dir
      then (
        elim (saved_states (read_file d (join dir state_file))) [
          | none ↦ reg
          | some m ↦ Registry.load_states reg m
        ],
        elim (saved_rules (read_file d (join dir rules_file))) [
          | none ↦ rules
          | some rs ↦ Rules.set random rules rs
        ],
        true,
      )
      else (reg, rules, false)

  -- The second half of savePersist.
  unfoldable pub save_rules : Str → Disk → RuleEngine → Disk × Bool
  save_rules dir d rules = elim (encode_rules (Rules.all_rules rules)) [
    | none ↦ (d, false)
    | some b ↦ write_file d (join dir rules_file) b
  ]

  unfoldable pub save_persist : {F : Type 0} → Str → Disk → Registry F → RuleEngine → Disk × Bool
  unfolding save_rules
  save_persist dir d reg rules =
      if mkdir_all d dir
      then elim (encode_states (Registry.snapshot reg)) [
        | none ↦ (d, false)
        | some b ↦
            let (d', done) = write_file d (join dir state_file) b in
            if done then save_rules dir d' rules else (d', false)
      ]
      else (d, false)
