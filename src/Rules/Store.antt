-- ===== src/Rules/Store.antt =====
-- The rules that an engine holds: identifiers, default actions, addition and deletion.
use skytap.Common.{
  Bool-cases, ◌⊎◌, inl, inr, ℕ, ◌+◌, ◌≡◌, refl, ap, true, false, List, [], ◌∷◌, arith, All,
  All-append, is_empty, Bool-cases, inl, inr, select, not,
}
use skytap.Text.{Str, ◌==◌}
use skytap.Rules
use skytap.Rules.{
  Rule, RuleEngine, new_engine, complete, complete_all, without, has_id, hex_encode, all_rules,
}

-- The calls that change an engine, with the random bytes that each one drew.
pub data Edit : Type 0 where
  set : (ℕ → Str) → List Rule → Edit
  add : Str → Rule → Edit
  delete : Str → Edit

unfoldable pub edit : RuleEngine → Edit → RuleEngine
edit e (set random rules) = Rules.set random e rules
edit e (add random r) = (Rules.add random e r).0
edit e (delete id) = (Rules.delete e id).0

unfoldable pub edit_all : RuleEngine → List Edit → RuleEngine
edit_all e [] = e
edit_all e (x ∷ xs) = edit_all (edit e x) xs

-- A rule that has an identifier and an action.
abbrev pub IsComplete : Rule → Type 0
IsComplete r = (is_empty r.id ≡ false) × (is_empty r.action ≡ false)

-- Every draw of the edit gave some bytes.
abbrev pub HasDraws : Edit → Type 0
HasDraws (set random rules) = (i : ℕ) → is_empty (random i) ≡ false
HasDraws (add random r) = is_empty random ≡ false
HasDraws (delete id) = Unit

complete-IsComplete :
    (random : Str) (r : Rule) → is_empty random ≡ false → IsComplete (complete random r)
unfolding complete
complete-IsComplete [] r h = absurd (cc)
complete-IsComplete (b ∷ bs) r h = ground arith

complete_all-IsComplete :
    (random : ℕ → Str) (i : ℕ) (rules : List Rule)
    → ((j : ℕ) → is_empty (random j) ≡ false)
    → All IsComplete (complete_all random i rules)
unfolding complete_all
complete_all-IsComplete random i [] h = tt
complete_all-IsComplete random i (r ∷ rs) h =
    (complete-IsComplete (random i) r (h i), complete_all-IsComplete random (i + 1) rs h)

without-All :
    (P : Rule → Type 0) (id : Str) (rules : List Rule) → All P rules → All P (without id rules)
unfolding without
without-All P id [] h = tt
without-All P id (r ∷ rs) (p, h) = elim (Bool-cases (r.id == id)) [
  | inl same ↦ rw same (without-All P id rs h)
  | inr other ↦ rw other (p, without-All P id rs h)
]

pub edit-IsComplete :
    (e : RuleEngine) (x : Edit)
    → HasDraws x
    → All IsComplete e.rules
    → All IsComplete (edit e x).rules
unfolding edit Rules.set Rules.add Rules.delete
edit-IsComplete e (set random rules) d h = complete_all-IsComplete random 0 rules d
edit-IsComplete e (add random r) d h =
    All-append IsComplete e.rules _ h (complete-IsComplete random r d, tt)
edit-IsComplete e (delete id) d h = without-All IsComplete id e.rules h

edit_from-IsComplete :
    (e : RuleEngine) (xs : List Edit)
    → All HasDraws xs
    → All IsComplete e.rules
    → All IsComplete (edit_all e xs).rules
unfolding edit_all
edit_from-IsComplete e [] d h = h
edit_from-IsComplete e (x ∷ xs) (d, ds) h =
    edit_from-IsComplete (edit e x) xs ds (edit-IsComplete e x d h)

-- After any sequence of Set, Add and Delete on a new engine every rule has an identifier and an
-- action, if each draw of random bytes gave some.
pub edit_all-IsComplete :
    (xs : List Edit) → All HasDraws xs → All IsComplete (edit_all new_engine xs).rules
edit_all-IsComplete xs d = edit_from-IsComplete new_engine xs d tt

has_id-without : (id : Str) (rules : List Rule) → has_id id (without id rules) ≡ false
unfolding has_id without
has_id-without id [] = refl
has_id-without id (r ∷ rs) = ground (arith, has_id-without id rs)

without-eq-select :
    (id : Str) (rules : List Rule) → without id rules ≡ select (λ r. not (r.id == id)) rules
unfolding without
without-eq-select id [] = refl
without-eq-select id (r ∷ rs) = ground (arith, without-eq-select id rs)

without_of_absent :
    (id : Str) (rules : List Rule) → has_id id rules ≡ false → without id rules ≡ rules
unfolding has_id without
without_of_absent id [] h = refl
without_of_absent id (r ∷ rs) h = ground (arith, without_of_absent id rs)

-- Delete keeps, in order, exactly the rules with another identifier, so that a second Delete finds
-- nothing; it answers whether there was one to delete, and if not the engine is as it was.
delete_lem :
    (e : RuleEngine) (id : Str)
    → ((Rules.delete e id).0.rules ≡ select (λ r. not (r.id == id)) e.rules)
      × ((Rules.delete (Rules.delete e id).0 id).1 ≡ false)
      × (((Rules.delete e id).1 ≡ true) ⊎ ((Rules.delete e id).0 ≡ e))
unfolding Rules.delete
delete_lem e id = (
  without-eq-select id e.rules,
  has_id-without id e.rules,
  elim (Bool-cases (has_id id e.rules)) [
    | inl present ↦ inl present
    | inr absent ↦ inr (ap (λ rs. record { rules = rs }) (without_of_absent id e.rules absent))
  ],
)
