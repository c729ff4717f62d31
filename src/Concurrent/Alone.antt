-- ===== src/Concurrent/Alone.antt =====
-- A thread that saves with no other thread between its steps.
use skytap.Common.{
  ℕ, zero, suc, ◌≡◌, refl, sym, ap, ◌∙◌, Bool, false, [], is_empty, length, drop, Bool-cases,
  Option-cases, inl, inr, append-nil,
}
use skytap.Text.{Str}
use skytap.GoMap.{put}
use skytap.GoMap.Laws.{get-put_self, put-put_self}
use skytap.Disk.{Disk, join, read_file, write_file, mkdir_all}
use skytap.Disk.Laws.{write_file-free, write_file-locked}
use skytap.Registry
use skytap.Rules
use skytap.Config.{Codec, state_file, rules_file, save_persist, save_rules}
use skytap.App.{set_pin_bypass, pin_file}
use skytap.Concurrent.{
  Shared, idle, changed, took, wrote, flagged, overlay, pin_text, with_file, write_open, save_step,
  save_steps,
}

drop-nil : (n : ℕ) → drop {A = ℕ} n [] ≡ []
drop-nil zero = refl
drop-nil (suc n) = refl

-- Behind an opening that emptied the file, a write leaves just its text.
pub overlay-nil : (b : Str) → overlay b [] ≡ b
unfolding overlay
overlay-nil b = rw (drop-nil (length b), append-nil) refl

write_open-with_file :
    {F : Type 0} (m : Shared F) (path b : Str)
    → write_open (with_file m path []) path b ≡ with_file m path b
unfolding read_file
write_open-with_file m path b =
    rw (get-put_self m.disk.files path [], overlay-nil b, put-put_self m.disk.files path [] b) refl

free_file :
    {F : Type 0} (m : Shared F) (path b : Str)
    → m.disk.locked path ≡ false
    → write_open (with_file m path []) path b ≡ record m { disk = (write_file m.disk path b).0 }
free_file m path b free =
    write_open-with_file m path b
    ∙ sym (ap (λ (x : Disk × Bool). record m { disk = x.0 }) (write_file-free m.disk path b free))

module _ {F : Type 0} (codec : Codec) (dir : Str) where
  idle_stays : (n : ℕ) (m : Shared F) → save_steps codec dir n m idle ≡ (m, idle)
  unfolding save_steps save_step
  idle_stays zero m = refl
  idle_stays (suc n) m = idle_stays n m

  pub rules_steps :
      (n : ℕ) (m : Shared F)
      → save_steps codec dir (suc (suc (suc n))) m wrote
        ≡ (record m { disk = (save_rules codec dir m.disk m.rules).0 }, idle)
  unfolding save_steps save_step save_rules
  rules_steps n m = elim (Option-cases (codec.encode_rules (Rules.all_rules m.rules))) [
    | inl none_made ↦ rw (save_rules, none_made) (idle_stays n m)
    | inr (b, made) ↦ elim (Bool-cases (m.disk.locked (join dir rules_file))) [
      | inl locked ↦
          rw (save_rules, made, write_file-locked m.disk (join dir rules_file) b locked, locked)
            (idle_stays n m)
      | inr free ↦
          rw (save_rules, made, free)
            (idle_stays n _
              ∙ ap (λ (x : Shared F). (x, idle)) (free_file m (join dir rules_file) b free))
    ]
  ]

  -- A handler that saves with no other thread between its steps does what savePersist does as one
  -- function, on every branch, and stays there.
  pub save_steps-save_persist :
      (n : ℕ) (m : Shared F)
      → save_steps codec dir (suc (suc (suc (suc (suc (suc n)))))) m changed
        ≡ (record m { disk = (save_persist codec dir m.disk m.registry m.rules).0 }, idle)
  unfolding save_steps save_step save_persist
  save_steps-save_persist n m = elim (Bool-cases (mkdir_all m.disk dir)) [
    | inr failed ↦ rw (save_persist, failed) (idle_stays n m)
    | inl made ↦ elim (Option-cases (codec.encode_states (Registry.snapshot m.registry))) [
      | inl none_made ↦ rw (save_persist, made, none_made) (idle_stays n m)
      | inr (b, text) ↦ elim (Bool-cases (m.disk.locked (join dir state_file))) [
        | inl locked ↦
            rw
              (
                save_persist,
                made,
                text,
                write_file-locked m.disk (join dir state_file) b locked,
                locked,
              )
              (idle_stays n m)
        | inr free ↦
            let d : Disk = record m.disk { files = put m.disk.files (join dir state_file) b } in
            rw (save_persist, made, text, write_file-free m.disk (join dir state_file) b free, free)
              (ap (λ x. save_steps codec dir (suc (suc (suc n))) x wrote)
                  (write_open-with_file m (join dir state_file) b)
                ∙ rules_steps n (record m { disk = d }))
      ]
    ]
  ]

  -- The rest of a save, from the text of the states on.
  pub took_steps :
      (n : ℕ) (m : Shared F) (b : Str)
      → m.disk.locked (join dir state_file) ≡ false
      → save_steps codec dir (suc (suc (suc (suc (suc n))))) m (took b) ≡ (
        record m {
          disk = (save_rules codec dir (write_file m.disk (join dir state_file) b).0 m.rules).0;
        },
        idle,
      )
  unfolding save_steps save_step
  took_steps n m b free =
      let d : Disk = record m.disk { files = put m.disk.files (join dir state_file) b } in
      rw (write_file-free m.disk (join dir state_file) b free, free)
        (ap (λ x. save_steps codec dir (suc (suc (suc n))) x wrote)
            (write_open-with_file m (join dir state_file) b)
          ∙ rules_steps n (record m { disk = d }))

  -- A call of SetPinBypass with no other between its steps does what it does as one function.
  save_steps-set_pin_bypass :
      (n : ℕ) (m : Shared F) (v : Bool)
      → save_steps codec dir (suc (suc n)) m (flagged v)
        ≡ (record m { disk = (set_pin_bypass dir m.disk v).0 }, idle)
  unfolding save_steps save_step set_pin_bypass
  save_steps-set_pin_bypass n m v = elim (Bool-cases (is_empty dir)) [
    | inl unset ↦ rw (set_pin_bypass, unset) (idle_stays n m)
    | inr set ↦ elim (Bool-cases (m.disk.locked (join dir pin_file))) [
      | inl locked ↦
          rw
            (
              set_pin_bypass,
              set,
              write_file-locked m.disk (join dir pin_file) (pin_text v) locked,
              locked,
            )
            (idle_stays n m)
      | inr free ↦
          rw (set_pin_bypass, set, free)
            (idle_stays n _
              ∙ ap (λ (x : Shared F). (x, idle))
                  (free_file m (join dir pin_file) (pin_text v) free))
    ]
  ]
