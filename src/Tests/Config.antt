-- ===== src/Tests/Config.antt =====
-- config.go
use skytap.Common.{◌≡◌, refl, List, [], ◌∷◌, some, true}
use skytap.Text.{Str, codes}
use skytap.GoMap.{get, put}
use skytap.Registry
use skytap.Registry.{Registry, new_registry, mocked}
use skytap.Registry.Spec.{Event, run, step, set_state}
use skytap.Rules.{new_engine}
use skytap.Rules.Store.{Edit, edit_all}
use skytap.Disk.{Disk, mkdir_all}
use skytap.Config.{Codec, load_persist, save_persist}
use skytap.Config.RoundTrip.{ReadsBack, load_persist-save_persist}
use skytap.Tests.Samples.{Flow, host_of, api, blank_rule, disk}

abbrev events : List (Event Flow)
events = set_state api mocked ∷ []

abbrev edits : List Edit
edits = Edit.add (1 ∷ []) blank_rule ∷ []

-- A codec that knows one file of each kind.
abbrev pub codec : Codec
codec = record {
  encode_states = λ m. some (codes "S");
  decode_states = λ b. some (some ((api, mocked) ∷ []));
  encode_rules = λ rs. some (codes "R");
  decode_rules = λ b. some (edit_all new_engine edits).rules;
}

reads_back :
    ReadsBack codec (run host_of new_registry events).states (edit_all new_engine edits).rules
unfolding run step Registry.set_state put get
reads_back = record {
  states_text = codes "S";
  rules_text = codes "R";
  again = (api, mocked) ∷ [];
  encoded_states = refl;
  encoded_rules = refl;
  decoded_states = refl;
  decoded_rules = refl;
  is_map = (refl, tt);
  same = λ h. refl;
}

writable : mkdir_all disk (codes "/data") ≡ true
unfolding mkdir_all
writable = refl

load_persist-save_persist_example :
    (d : Disk) × (reg : Registry Flow) × (save_persist codec
        (codes "/data")
        disk
        (run host_of new_registry events)
        (edit_all new_engine edits)
      ≡ (d, true))
    × (load_persist codec (λ i. []) (codes "/data") d (new_registry {F = Flow}) new_engine
        ≡ (reg, edit_all new_engine edits, true))
    × ((h : Str) → Registry.state reg h ≡ Registry.state (run host_of new_registry events) h)
load_persist-save_persist_example =
    load_persist-save_persist codec (codes "/data") disk writable refl refl host_of events edits
      (λ i. []) (refl, tt) reads_back
