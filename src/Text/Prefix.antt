-- ===== src/Text/Prefix.antt =====
-- Cutting a prefix off a text.
use skytap.Common.{◌≡◌, refl, [], ◌∷◌, ◌++◌, some, arith, ◌↔◌, true, Option-cases, inl, inr}
use skytap.Text.{Str, cut_prefix, has_prefix}

cut_prefix_sound : (s t r : Str) → cut_prefix s t ≡ some r → s ≡ t ++ r
unfolding cut_prefix
cut_prefix_sound s [] r e = ground arith
cut_prefix_sound [] (y ∷ t) r e = absurd (cc)
cut_prefix_sound (x ∷ s) (y ∷ t) r e = ground (arith, cut_prefix_sound s t r)

cut_prefix-append : (t r : Str) → cut_prefix (t ++ r) t ≡ some r
unfolding cut_prefix
cut_prefix-append [] [] = refl
cut_prefix-append [] (x ∷ r) = refl
cut_prefix-append (y ∷ t) r = ground (arith, cut_prefix-append t r)

pub has_prefix_iff : (s t : Str) → (has_prefix s t ≡ true) ↔ ((r : Str) × (s ≡ t ++ r))
unfolding has_prefix
has_prefix_iff s t = (
  λ h. elim (Option-cases (cut_prefix s t)) [
    | inl missed ↦ absurd (ground arith)
    | inr (r, found) ↦ (r, cut_prefix_sound s t r found)
  ],
  λ (r, e). rw (e, has_prefix, cut_prefix-append) refl,
)
