-- ===== src/Flags/Start.antt =====
-- What main has set up when the engine starts.
use skytap.Common.{
  Option-cases, ℕ, ◌≡◌, refl, sym, ◌∙◌, true, false, List, [], ◌∷◌, ◌++◌, none, some, arith,
  is_empty, is_some, Bool-cases, inl, inr, if◌then◌else◌, ◌⊎◌,
}
use skytap.Text.{Str, ◌==◌, Unicode}
use skytap.Text.Equality.{eq_iff, eq_refl}
use skytap.GoMap
use skytap.GoMap.Laws.{get-put, get-put_ne, get-put_self}
use skytap.Registry
use skytap.Registry.{Registry, mocked, intercepted}
use skytap.Rules
use skytap.Rules.{Rule, RuleEngine}
use skytap.Disk.{Disk, mkdir_all}
use skytap.Config.{Codec, load_persist, persist_exists}
use skytap.Flags.{
  seed, seed_host, has_host, intercept_all, split_csv, start, name_hosts, seed_rules, seed_registry,
}

-- One of the names in a list.
abbrev pub IsOneOf : Str → List Str → Type 0
IsOneOf h [] = ⊥
IsOneOf h (x ∷ xs) = (h ≡ x) ⊎ IsOneOf h xs

module _ {F : Type 0} where
  intercept_all-keeps :
      (reg : Registry F) (hs : List Str) (h : Str)
      → Registry.state reg h ≡ intercepted
      → Registry.state (intercept_all reg hs) h ≡ intercepted
  unfolding intercept_all
  intercept_all-keeps reg [] h e = e
  intercept_all-keeps reg (x ∷ xs) h e =
      intercept_all-keeps (Registry.set_state reg x intercepted) xs h (
        unfold Registry.state Registry.set_state in
        ground (arith, get-put reg.states x h intercepted))

  intercept_all-state :
      (reg : Registry F) (hs : List Str) (h : Str)
      → IsOneOf h hs
      → Registry.state (intercept_all reg hs) h ≡ intercepted
  unfolding intercept_all
  intercept_all-state reg [] h i = absurd i
  intercept_all-state reg (x ∷ xs) h (inl e) =
      intercept_all-keeps (Registry.set_state reg x intercepted) xs h (
        unfold Registry.state Registry.set_state in
        ground (arith, get-put reg.states x h intercepted, eq_iff x h, eq_refl h))
  intercept_all-state reg (x ∷ xs) h (inr i) =
      intercept_all-state (Registry.set_state reg x intercepted) xs h i

  intercept_all-other :
      (reg : Registry F) (hs : List Str) (h : Str)
      → (IsOneOf h hs → ⊥)
      → Registry.state (intercept_all reg hs) h ≡ Registry.state reg h
  unfolding intercept_all
  intercept_all-other reg [] h i = refl
  intercept_all-other reg (x ∷ xs) h i =
      intercept_all-other (Registry.set_state reg x intercepted) xs h (λ k. i (inr k))
      ∙ (unfold Registry.state Registry.set_state in
          rw (get-put_ne reg.states x h intercepted (λ e. i (inl (sym e)))) refl)

  name_hosts-intercepted :
      (u : Unicode) (codec : Codec) (dir hosts : Str) (d : Disk) (p : Registry F × RuleEngine)
      (h : Str)
      → is_empty hosts ≡ false
      → IsOneOf h (split_csv u hosts)
      → Registry.state (name_hosts u codec dir hosts d p).0 h ≡ intercepted
  unfolding name_hosts
  name_hosts-intercepted u codec dir hosts d (reg, rules) h named i =
      rw named (intercept_all-state reg (split_csv u hosts) h i)

  pub load_persist-loaded :
      (codec : Codec) (random : ℕ → Str) (dir : Str) (d : Disk) (reg : Registry F)
      (rules : RuleEngine)
      → mkdir_all d dir ≡ true
      → (load_persist codec random dir d reg rules).2 ≡ true
  unfolding load_persist
  load_persist-loaded codec random dir d reg rules m = rw (load_persist, m) refl

  -- Where the data directory can be made, main goes on, and every host that SKYTAP_INTERCEPT_HOSTS
  -- names is INTERCEPTED then, whatever the saved states and the rules say.
  start-intercepted :
      (u : Unicode) (codec : Codec) (random : ℕ → Str) (fresh dir hosts : Str) (d : Disk)
      (reg : Registry F) (rules : RuleEngine) (h : Str)
      → mkdir_all d dir ≡ true
      → is_empty hosts ≡ false
      → IsOneOf h (split_csv u hosts)
      → (x : Registry F × RuleEngine × Disk) × (start u codec random fresh dir hosts d reg rules
          ≡ some x)
        × (Registry.state x.0 h ≡ intercepted)
  unfolding start
  start-intercepted u codec random fresh dir hosts d reg rules h m named i =
      let loaded = load_persist-loaded codec random dir d reg rules m in
      let read = load_persist codec random dir d reg rules in
      let (reg', rules') : Registry F × RuleEngine =
        if persist_exists dir d then (read.0, read.1) else seed fresh read.0 read.1 in
      (
        name_hosts u codec dir hosts d (reg', rules'),
        rw (start, loaded) refl,
        name_hosts-intercepted u codec dir hosts d (reg', rules') h named i,
      )

has_host-append :
    (h : Str) (rs : List Rule) (r : Rule) → (r.host == h) ≡ true → has_host h (rs ++ r ∷ []) ≡ true
unfolding has_host
has_host-append h [] r e = ground arith
has_host-append h (q ∷ rs) r e = ground (arith, has_host-append h rs r e)

has_host-seed_rules :
    (random : Str) (rules : RuleEngine) → has_host seed_host (seed_rules random rules).rules ≡ true
unfolding seed_rules Rules.add Rules.all_rules Rules.complete
has_host-seed_rules random rules = elim (Bool-cases (has_host seed_host rules.rules)) [
  | inl present ↦ rw (seed_rules, Rules.all_rules, present) present
  | inr absent ↦
      rw (seed_rules, Rules.all_rules, absent)
        (has_host-append seed_host rules.rules _ (eq_refl seed_host))
]

has_state-seed_registry :
    {F : Type 0} (reg : Registry F)
    → is_some (GoMap.get (seed_registry reg).states seed_host) ≡ true
unfolding seed_registry Registry.snapshot Registry.set_state
has_state-seed_registry reg = ground (arith, get-put_self reg.states seed_host mocked)

seed_registry-known :
    {F : Type 0} (reg : Registry F) (h : Str)
    → is_some (GoMap.get reg.states h) ≡ true
    → GoMap.get (seed_registry reg).states h ≡ GoMap.get reg.states h
unfolding seed_registry Registry.snapshot Registry.set_state
seed_registry-known reg h known =
    ground (arith, get-put reg.states seed_host h mocked, eq_iff seed_host h)

seed_registry-again :
    {F : Type 0} (reg : Registry F)
    → is_some (GoMap.get reg.states seed_host) ≡ true
    → seed_registry reg ≡ reg
unfolding seed_registry Registry.snapshot
seed_registry-again reg h = rw h refl

seed_rules-again :
    (random : Str) (rules : RuleEngine)
    → has_host seed_host rules.rules ≡ true
    → seed_rules random rules ≡ rules
unfolding seed_rules Rules.all_rules
seed_rules-again random rules h = rw h refl

-- Seeding gives the seed host a state and a rule, keeps the state of every host that had one, and
-- seeding again changes nothing.
seed_lem :
    {F : Type 0} (random random' : Str) (reg : Registry F) (rules : RuleEngine)
    → (is_some (GoMap.get (seed random reg rules).0.states seed_host) ≡ true)
      × (has_host seed_host (seed random reg rules).1.rules ≡ true)
      × ((h : Str)
          → (GoMap.get reg.states h ≡ none)
            ⊎ (GoMap.get (seed random reg rules).0.states h ≡ GoMap.get reg.states h))
      × (seed random' (seed random reg rules).0 (seed random reg rules).1 ≡ seed random reg rules)
unfolding seed
seed_lem random random' reg rules = (
  has_state-seed_registry reg,
  has_host-seed_rules random rules,
  λ h. elim (Option-cases (GoMap.get reg.states h)) [
    | inl new ↦ inl new
    | inr (st, known) ↦ inr (seed_registry-known reg h (rw known refl))
  ],
  λ i. (
    seed_registry-again (seed_registry reg) (has_state-seed_registry reg) i,
    seed_rules-again random' (seed_rules random rules) (has_host-seed_rules random rules) i,
  ),
)
