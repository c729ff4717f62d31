-- ===== src/Config/RoundTrip.antt =====
-- What is saved is what is loaded.
use skytap.Common.{
  ℕ, ◌+◌, ◌≡◌, ◌≢◌, refl, sym, ap, ◌∙◌, true, false, List, [], ◌∷◌, ◌++◌, some, arith, All, or_zero,
  length, drop, drop-length-append, Option-cases, inl, inr, is_some, Bool,
}
use skytap.Text.{Str, codes, ◌==◌}
use skytap.Text.Equality.{eq_iff}
use skytap.GoMap
use skytap.GoMap.{GoMap, IsMap, get}
use skytap.GoMap.Merge.{get-merge_nil}
use skytap.GoMap.Laws.{get-put_self, get-put_ne}
use skytap.Registry
use skytap.Registry.{Registry, DomainState, new_registry}
use skytap.Registry.Spec.{Event, run}
use skytap.Rules
use skytap.Rules.{Rule, RuleEngine, new_engine, complete, complete_all}
use skytap.Rules.Store.{Edit, edit_all, IsComplete, HasDraws, edit_all-IsComplete}
use skytap.Disk.{Disk, join, read_file, mkdir_all}
use skytap.Disk.Laws.{write_file-free, read_file-write_file_ne}
use skytap.Config.{
  Codec, persist_exists, state_file, rules_file, saved_states, saved_rules, load_persist,
  save_persist, save_rules,
}

-- encoding/json reads these states and rules back from what it wrote: the states as a map with the
-- same entries, perhaps in another order.
pub record ReadsBack (codec : Codec) (states : GoMap DomainState) (rules : List Rule) : Type 0 where
  pub states_text : Str
  pub rules_text : Str
  pub again : GoMap DomainState
  pub encoded_states : codec.encode_states states ≡ some states_text
  pub encoded_rules : codec.encode_rules rules ≡ some rules_text
  pub decoded_states : codec.decode_states states_text ≡ some (some again)
  pub decoded_rules : codec.decode_rules rules_text ≡ some rules
  pub is_map : IsMap again
  pub same : (h : Str) → get again h ≡ get states h

complete_all-same :
    (random : ℕ → Str) (i : ℕ) (rules : List Rule)
    → All IsComplete rules
    → complete_all random i rules ≡ rules
unfolding complete_all complete
complete_all-same random i [] h = refl
complete_all-same random i (r ∷ rs) ((id, action), h) =
    ground (arith, complete_all-same random (i + 1) rs h)

-- The two files are different ones.
pub join-ne : (dir : Str) → join dir state_file ≢ join dir rules_file
unfolding join ◌==◌
join-ne [] e = absurd (cc ((eq_iff state_file rules_file).1 e))
join-ne (c ∷ dir) e =
    let tails =
      sym (drop-length-append (c ∷ dir) (codes "/" ++ state_file))
      ∙ ap (drop (length (c ∷ dir))) e
      ∙ drop-length-append (c ∷ dir) (codes "/" ++ rules_file) in
    absurd (cc ((eq_iff (codes "/" ++ state_file) (codes "/" ++ rules_file)).1 tails))

-- The rules are in a file of their own.
pub read_file-save_rules :
    (codec : Codec) (dir : Str) (d : Disk) (rules : RuleEngine)
    → read_file (save_rules codec dir d rules).0 (join dir state_file)
      ≡ read_file d (join dir state_file)
unfolding save_rules
read_file-save_rules codec dir d rules =
    elim (Option-cases (codec.encode_rules (Rules.all_rules rules))) [
      | inl none_made ↦ rw (save_rules, none_made) refl
      | inr (b, made) ↦
          rw (save_rules, made)
            (read_file-write_file_ne d (join dir rules_file) b (join dir state_file)
              (λ e. join-ne dir (sym e)))
    ]

module _ (codec : Codec) (dir : Str) (d : Disk) (writable : mkdir_all d dir ≡ true)
    (state_free : d.locked (join dir state_file) ≡ false)
    (rules_free : d.locked (join dir rules_file) ≡ false) where
  -- The disk after the two texts have been written.
  abbrev saved : Str → Str → Disk
  saved states_text rules_text = record d {
    files =
        GoMap.put (GoMap.put d.files (join dir state_file) states_text) (join dir rules_file)
          rules_text;
  }

  save_persist_lem :
      {F : Type 0} (reg : Registry F) (e : RuleEngine) (states_text rules_text : Str)
      → codec.encode_states reg.states ≡ some states_text
      → codec.encode_rules e.rules ≡ some rules_text
      → save_persist codec dir d reg e ≡ (saved states_text rules_text, true)
  unfolding save_persist Registry.snapshot Rules.all_rules
  save_persist_lem reg e states_text rules_text es er =
      let d' : Disk = record d { files = GoMap.put d.files (join dir state_file) states_text } in
      rw
        (
          writable,
          es,
          write_file-free d (join dir state_file) states_text state_free,
          save_rules,
          er,
          write_file-free d (join dir state_file) states_text state_free,
          write_file-free d' (join dir rules_file) rules_text rules_free,
        )
        refl

  load_persist_lem :
      {F : Type 0} (random : ℕ → Str) (reg : Registry F) (e : RuleEngine)
      → (back : ReadsBack codec reg.states e.rules)
      → load_persist codec random dir
          (saved back.states_text back.rules_text)
          (new_registry {F = F})
          new_engine
        ≡ (Registry.load_states new_registry back.again, Rules.set random new_engine e.rules, true)
  unfolding load_persist read_file mkdir_all
  load_persist_lem random reg e back =
      let put_states = GoMap.put d.files (join dir state_file) back.states_text in
      let states_read : get (GoMap.put put_states (join dir rules_file) back.rules_text)
            (join dir state_file)
          ≡ some back.states_text =
        get-put_ne put_states _ _ back.rules_text (λ p. join-ne dir (sym p))
        ∙ get-put_self d.files (join dir state_file) back.states_text in
      rw
        (
          load_persist, writable, read_file, states_read, saved_states, back.decoded_states,
          get-put_self, saved_rules, back.decoded_rules,
        )
        refl

  pub save_persist-persist_exists :
      {F : Type 0} (reg : Registry F) (e : RuleEngine)
      → ReadsBack codec reg.states e.rules
      → persist_exists dir (save_persist codec dir d reg e).0 ≡ true
  unfolding persist_exists read_file
  save_persist-persist_exists reg e back =
      let put_states = GoMap.put d.files (join dir state_file) back.states_text in
      ap (λ (x : Disk × Bool). persist_exists dir x.0)
        (save_persist_lem reg e back.states_text back.rules_text back.encoded_states
          back.encoded_rules)
      ∙ ap is_some (
          get-put_ne put_states (join dir rules_file) (join dir state_file) back.rules_text
            (λ p. join-ne dir (sym p))
          ∙ get-put_self d.files (join dir state_file) back.states_text)

  -- Complete rules and any registry, written by a save that succeeds, are what a new registry and a
  -- new engine load.
  pub load_persist-saved :
      {F : Type 0} (random : ℕ → Str) (reg : Registry F) (rules : RuleEngine)
      → All IsComplete rules.rules
      → (back : ReadsBack codec reg.states rules.rules)
      → (disk : Disk) × (again : Registry F) × (save_persist codec dir d reg rules ≡ (disk, true))
        × (load_persist codec random dir disk (new_registry {F = F}) new_engine
            ≡ (again, rules, true))
        × ((h : Str) → Registry.state again h ≡ Registry.state reg h)
  load_persist-saved random reg rules whole back =
      let kept : Rules.set random new_engine rules.rules ≡ rules =
        unfold Rules.set in
        ap (λ rs. record { rules = rs }) (complete_all-same random 0 rules.rules whole) in
      (
        saved back.states_text back.rules_text,
        Registry.load_states new_registry back.again,
        save_persist_lem reg rules back.states_text back.rules_text back.encoded_states
            back.encoded_rules,
        load_persist_lem random reg rules back
            ∙ ap (λ (k : RuleEngine). (Registry.load_states new_registry back.again, k, true)) kept,
        λ h.
            unfold Registry.state Registry.load_states in
            ap (or_zero Registry.observed) (get-merge_nil back.again h back.is_map ∙ back.same h),
      )

  -- Whatever calls led to a registry and an engine: saving them in a directory that can be written
  -- succeeds, and loading into a new registry and a new engine gives every host its state and gives
  -- all the rules, with their identifiers, in their order.
  pub load_persist-save_persist :
      {F : Type 0} (host_of : F → Str) (es : List (Event F)) (xs : List Edit) (random : ℕ → Str)
      → All HasDraws xs
      → (back : ReadsBack codec (run host_of new_registry es).states (edit_all new_engine xs).rules)
      → (disk : Disk) × (reg : Registry F) × (save_persist codec dir d
            (run host_of new_registry es)
            (edit_all new_engine xs)
          ≡ (disk, true))
        × (load_persist codec random dir disk (new_registry {F = F}) new_engine
            ≡ (reg, edit_all new_engine xs, true))
        × ((h : Str) → Registry.state reg h ≡ Registry.state (run host_of new_registry es) h)
  load_persist-save_persist host_of es xs random draws back =
      load_persist-saved random (run host_of new_registry es) (edit_all new_engine xs)
        (edit_all-IsComplete xs draws) back
