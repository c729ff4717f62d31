-- ===== src/Rules/Matching.antt =====
-- Which rule a request meets.
use skytap.Common.{
  ◌≡◌, ◌≢◌, refl, ap, true, false, List, [], ◌∷◌, ◌++◌, none, some, arith, ◌↔◌, ◌⊎◌, inl, inr, All,
  Bool-cases, Option-cases,
}
use skytap.Text.{Str, Unicode, codes}
use skytap.Text.Equality.{eq_iff}
use skytap.Text.Prefix.{has_prefix_iff}
use skytap.Http.{Request}
use skytap.Rules.{Rule, RuleEngine, applies, first_rule, match_rule, cut_star, path_match}

abbrev star : Str
star = codes "*"

cut_star_sound : (s p : Str) → cut_star s ≡ some p → s ≡ p ++ star
unfolding cut_star
cut_star_sound [] p e = absurd (cc)
cut_star_sound (c ∷ []) p e = ground arith
cut_star_sound (c ∷ d ∷ s) p e = elim (Option-cases (cut_star (d ∷ s))) [
  | inl missed ↦ absurd (ground arith)
  | inr (q, found) ↦ ground (arith, cut_star_sound (d ∷ s) q found)
]

cut_star_complete : (p : Str) → cut_star (p ++ star) ≡ some p
unfolding cut_star
cut_star_complete [] = refl
cut_star_complete (c ∷ []) = refl
cut_star_complete (c ∷ d ∷ p) = ground (arith, cut_star_complete (d ∷ p))

-- The paths that a pattern stands for: behind a final `*` anything may follow.
abbrev pub Covers : Str → Str → Type 0
Covers pat path =
    ((p : Str) × (rest : Str) × (pat ≡ p ++ star) × (path ≡ p ++ rest))
    ⊎ (((p : Str) → pat ≢ p ++ star) × (pat ≡ path))

path_match_sound : (pat path : Str) → path_match pat path ≡ true → Covers pat path
unfolding path_match
path_match_sound pat path h = elim (Option-cases (cut_star pat)) [
  | inl plain ↦ inr (
    λ p e. absurd (cc (cut_star_complete p, plain, ap cut_star e)),
    (eq_iff pat path).0 (rw (path_match, plain) at h),
  )
  | inr (p, starred) ↦
      let (rest, e) = (has_prefix_iff path p).0 (rw (path_match, starred) at h) in
      inl (p, rest, cut_star_sound pat p starred, e)
]

path_match_complete : (pat path : Str) → Covers pat path → path_match pat path ≡ true
unfolding path_match
path_match_complete pat path (inl (p, rest, e, e')) =
    rw (e, path_match, cut_star_complete p) ((has_prefix_iff path p).1 (rest, e'))
path_match_complete pat path (inr (plain, same)) = elim (Option-cases (cut_star pat)) [
  | inl none_found ↦ rw (path_match, none_found) ((eq_iff pat path).1 same)
  | inr (p, starred) ↦ absurd (plain p (cut_star_sound pat p starred))
]

-- A pattern that ends in `*` is met by exactly the paths that begin with the text in front of it,
-- any other pattern by itself alone.
path_match_iff : (pat path : Str) → (path_match pat path ≡ true) ↔ Covers pat path
path_match_iff pat path = (path_match_sound pat path, path_match_complete pat path)

module _ (u : Unicode) (host : Str) (req : Request) where
  -- The first of the rules that apply: those in front of it do not.
  pub record IsFirst (rules : List Rule) (r : Rule) : Type 0 where
    pub before : List Rule
    pub after : List Rule
    pub split : rules ≡ before ++ r ∷ after
    pub skipped : All (λ q. applies u host req q ≡ false) before
    pub taken : applies u host req r ≡ true

  first_rule-IsFirst :
      (rules : List Rule) (r : Rule) → first_rule u host req rules ≡ some r → IsFirst rules r
  unfolding first_rule
  first_rule-IsFirst [] r e = absurd (cc)
  first_rule-IsFirst (q ∷ rules) r e = elim (Bool-cases (applies u host req q)) [
    | inl hit ↦ record {
      before = [];
      after = rules;
      split = ground arith;
      skipped = tt;
      taken = ground arith;
    }
    | inr miss ↦
        let f = first_rule-IsFirst rules r (ground arith) in
        record {
          before = q ∷ f.before;
          after = f.after;
          split = ap (λ t. q ∷ t) f.split;
          skipped = (miss, f.skipped);
          taken = f.taken;
        }
  ]

  IsFirst-first_rule :
      (before after : List Rule) (r : Rule)
      → All (λ q. applies u host req q ≡ false) before
      → applies u host req r ≡ true
      → first_rule u host req (before ++ r ∷ after) ≡ some r
  unfolding first_rule
  IsFirst-first_rule [] after r h t = ground arith
  IsFirst-first_rule (q ∷ before) after r (m, h) t =
      ground (arith, IsFirst-first_rule before after r h t)

  first_rule-none :
      (rules : List Rule)
      → (first_rule u host req rules ≡ none) ↔ All (λ q. applies u host req q ≡ false) rules
  unfolding first_rule
  first_rule-none [] = (λ _. tt, λ _. refl)
  first_rule-none (q ∷ rules) = (
    λ e. (ground arith, (first_rule-none rules).0 (ground arith)),
    λ (m, h). ground (arith, (first_rule-none rules).1 h),
  )

  -- matchRule returns a rule exactly when it is the first that applies, and nothing exactly when
  -- none applies.
  pub match_rule_iff :
      (e : RuleEngine)
      → ((r : Rule) → (match_rule u e host req ≡ some r) ↔ IsFirst e.rules r)
        × ((match_rule u e host req ≡ none) ↔ All (λ q. applies u host req q ≡ false) e.rules)
  unfolding match_rule
  match_rule_iff e = (
    λ r. (
      first_rule-IsFirst e.rules r,
      λ f. rw f.split (IsFirst-first_rule f.before f.after r f.skipped f.taken),
    ),
    first_rule-none e.rules,
  )
