-- ===== src/Server/Present.antt =====
-- state.json is not lost by a save or a handler.
use skytap.Common.{◌≡◌, ap, ◌∙◌, true, is_some, inl, inr, Bool-cases, Option-cases}
use skytap.Text.{Str}
use skytap.Disk.{Disk, join, read_file, mkdir_all}
use skytap.Disk.Laws.{write_file-locked, write_file-free}
use skytap.GoMap.Laws.{get-put_self}
use skytap.Registry
use skytap.Registry.{Registry}
use skytap.Rules.{RuleEngine}
use skytap.Config.{Codec, state_file, save_persist, save_rules, persist_exists}
use skytap.Config.RoundTrip.{read_file-save_rules}
use skytap.Server.{Server}
use skytap.Server.Files.{SameFiles}
use skytap.Server.Saving.{IsKept}

module _ (dir : Str) where
  pub persist_exists-SameFiles :
      (d d' : Disk)
      → SameFiles dir d d'
      → persist_exists dir d ≡ true
      → persist_exists dir d' ≡ true
  unfolding persist_exists
  persist_exists-SameFiles d d' same h = ap is_some same.states ∙ h

  persist_exists-save_rules :
      (codec : Codec) (d : Disk) (rules : RuleEngine)
      → persist_exists dir d ≡ true
      → persist_exists dir (save_rules codec dir d rules).0 ≡ true
  unfolding persist_exists
  persist_exists-save_rules codec d rules h =
      ap is_some (read_file-save_rules codec dir d rules) ∙ h

  persist_exists-save_persist :
      {F : Type 0} (codec : Codec) (d : Disk) (reg : Registry F) (rules : RuleEngine)
      → persist_exists dir d ≡ true
      → persist_exists dir (save_persist codec dir d reg rules).0 ≡ true
  unfolding save_persist persist_exists read_file
  persist_exists-save_persist codec d reg rules h = elim (Bool-cases (mkdir_all d dir)) [
    | inr failed ↦ rw (save_persist, failed) h
    | inl made ↦ elim (Option-cases (codec.encode_states (Registry.snapshot reg))) [
      | inl none_made ↦ rw (save_persist, made, none_made) h
      | inr (b, text) ↦ elim (Bool-cases (d.locked (join dir state_file))) [
        | inl locked ↦
            rw (save_persist, made, text, write_file-locked d (join dir state_file) b locked) h
        | inr free ↦
            rw (save_persist, made, text, write_file-free d (join dir state_file) b free)
              (persist_exists-save_rules codec _ rules
                (ap is_some (get-put_self d.files (join dir state_file) b)))
      ]
    ]
  ]

  -- A handler leaves the file there.
  pub persist_exists-IsKept :
      {F : Type 0} (codec : Codec) (s s' : Server F)
      → IsKept codec dir s s'
      → persist_exists dir s.disk ≡ true
      → persist_exists dir s'.disk ≡ true
  unfolding IsKept
  persist_exists-IsKept codec s s' (inl (reg, rules, same)) h =
      persist_exists-SameFiles s.disk s'.disk same h
  persist_exists-IsKept codec s s' (inr at) h =
      ap (persist_exists dir) at ∙ persist_exists-save_persist codec s.disk s'.registry s'.rules h
