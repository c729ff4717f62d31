-- ===== src/Text/Equality.antt =====
-- Comparing byte strings decides their equality.
use skytap.Common.{◌≡◌, refl, ◌↔◌, true, [], ◌∷◌, arith}
use skytap.Text.{Str, ◌==◌}

pub eq_refl : (s : Str) → (s == s) ≡ true
unfolding ◌==◌
eq_refl [] = refl
eq_refl (c ∷ s) = ground (arith, eq_refl s)

eq→path : (s t : Str) → (s == t) ≡ true → s ≡ t
unfolding ◌==◌
eq→path [] [] h = refl
eq→path [] (y ∷ t) h = cc
eq→path (x ∷ s) [] h = cc
eq→path (x ∷ s) (y ∷ t) h = ground (arith, eq→path s t)

pub eq_iff : (s t : Str) → ((s == t) ≡ true) ↔ (s ≡ t)
eq_iff s t = (eq→path s t, λ p. rw p (eq_refl t))
