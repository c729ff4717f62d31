-- ===== src/Server/Recovery.antt =====
-- What a restart finds in the data directory.
use skytap.Common.{ℕ, ◌≡◌, refl, sym, ap, ◌∙◌, Bool, true, false, not, All, inl, inr}
use skytap.Text.{Str}
use skytap.Registry
use skytap.Registry.{Registry, new_registry}
use skytap.Rules.{RuleEngine, new_engine}
use skytap.Rules.Store.{IsComplete}
use skytap.Disk.{Disk, join, write_file, mkdir_all}
use skytap.Disk.Laws.{locked-write_file}
use skytap.Config.{Codec, state_file, rules_file, load_persist, save_persist, save_rules}
use skytap.Config.RoundTrip.{ReadsBack, load_persist-saved}
use skytap.Server.{Server}
use skytap.Server.Files.{SameFiles}
use skytap.Server.Saving.{IsKept}
use skytap.Rules.{all_rules}
use skytap.Common.{Option-cases, Bool-cases, if_case}

-- The data directory and its two files can be written.
pub record IsWritable (dir : Str) (d : Disk) : Type 0 where
  pub made : mkdir_all d dir ≡ true
  pub state_free : d.locked (join dir state_file) ≡ false
  pub rules_free : d.locked (join dir rules_file) ≡ false

pub locked-IsWritable :
    (dir : Str) (d d' : Disk) → d'.locked ≡ d.locked → IsWritable dir d → IsWritable dir d'
unfolding mkdir_all
locked-IsWritable dir d d' e w = record {
  made = ap (λ (l : Str → Bool). not (l dir)) e ∙ w.made;
  state_free = ap (λ (l : Str → Bool). l (join dir state_file)) e ∙ w.state_free;
  rules_free = ap (λ (l : Str → Bool). l (join dir rules_file)) e ∙ w.rules_free;
}

save_rules-locked :
    (codec : Codec) (dir : Str) (d : Disk) (rules : RuleEngine)
    → (save_rules codec dir d rules).0.locked ≡ d.locked
unfolding save_rules
save_rules-locked codec dir d rules = elim (Option-cases (codec.encode_rules (all_rules rules))) [
  | inl none_made ↦ rw (save_rules, none_made) refl
  | inr (b, made) ↦ rw (save_rules, made) (locked-write_file d (join dir rules_file) b)
]

module _ {F : Type 0} (codec : Codec) (random : ℕ → Str) (dir : Str) where
  -- Loading the data directory into a new registry and a new engine succeeds, gives every host the
  -- state that it has now, and gives the rules as they are now.
  unfoldable pub IsRecoverable : Server F → Type 0
  IsRecoverable s =
      (reg : Registry F) × (load_persist codec random dir s.disk (new_registry {F = F}) new_engine
        ≡ (reg, s.rules, true))
      × ((h : Str) → Registry.state reg h ≡ Registry.state s.registry h)

  pub load_persist-SameFiles :
      (d d' : Disk) (reg : Registry F) (e : RuleEngine)
      → SameFiles dir d d'
      → load_persist codec random dir d' reg e ≡ load_persist codec random dir d reg e
  unfolding load_persist
  load_persist-SameFiles d d' reg e same =
      let made : mkdir_all d' dir ≡ mkdir_all d dir =
        unfold mkdir_all in ap (λ (l : Str → Bool). not (l dir)) same.locked in
      rw (load_persist, made, same.states, same.rules) refl

  -- A server with the same files and rules, in which each host has the state that it had.
  pub same-IsRecoverable :
      (s s' : Server F)
      → SameFiles dir s.disk s'.disk
      → s'.rules ≡ s.rules
      → ((h : Str) → Registry.state s'.registry h ≡ Registry.state s.registry h)
      → IsRecoverable s
      → IsRecoverable s'
  unfolding IsRecoverable
  same-IsRecoverable s s' same rules states (reg, loaded, again) = (
    reg,
    load_persist-SameFiles s.disk s'.disk new_registry new_engine same
        ∙ loaded
        ∙ ap (λ (k : RuleEngine). (reg, k, true)) (sym rules),
    λ h. again h ∙ sym (states h),
  )

  pub saved-IsRecoverable :
      (d : Disk) (s : Server F)
      → IsWritable dir d
      → ReadsBack codec s.registry.states s.rules.rules
      → All IsComplete s.rules.rules
      → s.disk ≡ (save_persist codec dir d s.registry s.rules).0
      → IsRecoverable s
  unfolding IsRecoverable
  saved-IsRecoverable d s w back whole at =
      let (disk, reg, done, loaded, states) =
        load_persist-saved codec dir d w.made w.state_free w.rules_free random s.registry s.rules
          whole back in
      let here : s.disk ≡ disk = at ∙ ap (λ (x : Disk × Bool). x.0) done in
      (
        reg,
        ap (λ x. load_persist codec random dir x (new_registry {F = F}) new_engine) here ∙ loaded,
        states,
      )

  pub save_persist-locked :
      (d : Disk) (reg : Registry F) (rules : RuleEngine)
      → (save_persist codec dir d reg rules).0.locked ≡ d.locked
  unfolding save_persist
  save_persist-locked d reg rules = elim (Bool-cases (mkdir_all d dir)) [
    | inr failed ↦ rw (save_persist, failed) refl
    | inl made ↦ elim (Option-cases (codec.encode_states (Registry.snapshot reg))) [
      | inl none_made ↦ rw (save_persist, made, none_made) refl
      | inr (b, text) ↦
          let x = write_file d (join dir state_file) b in
          rw (save_persist, made, text)
            (if_case (λ (y : Disk × Bool). y.0.locked ≡ d.locked) x.1 _ _
              (λ _.
                save_rules-locked codec dir x.0 rules ∙ locked-write_file d (join dir state_file) b)
              (λ _. locked-write_file d (join dir state_file) b))
    ]
  ]

  pub locked-IsKept : (s s' : Server F) → IsKept codec dir s s' → s'.disk.locked ≡ s.disk.locked
  unfolding IsKept
  locked-IsKept s s' (inl (reg, rules, same)) = same.locked
  locked-IsKept s s' (inr at) =
      ap (λ (x : Disk). x.locked) at ∙ save_persist-locked s.disk s'.registry s'.rules

  -- After a handler, the data directory can be loaded if it could before.
  pub kept-IsRecoverable :
      (s s' : Server F)
      → IsWritable dir s.disk
      → ReadsBack codec s'.registry.states s'.rules.rules
      → All IsComplete s'.rules.rules
      → IsKept codec dir s s'
      → IsRecoverable s
      → IsRecoverable s'
  unfolding IsKept
  kept-IsRecoverable s s' w back whole (inl (reg, rules, same)) h =
      same-IsRecoverable s s' same rules (λ x. ap (λ (g : Registry F). Registry.state g x) reg) h
  kept-IsRecoverable s s' w back whole (inr at) h = saved-IsRecoverable s.disk s' w back whole at
