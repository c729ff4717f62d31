-- ===== src/Registry/Ring.antt =====
-- The flow ring of one host keeps the last `n` of all that was appended.
use mathlib.Core.Path.{◌≡⟨◌⟩◌, ◌∎}
use skytap.Common.{
  sym, ap, ◌∙◌, Bool-cases, inl, inr, ℕ, zero, suc, ◌+◌, ◌-◌, ◌≤◌, ◌≡◌, refl, List, [], ◌∷◌, ◌++◌,
  arith, length, drop, ltb, length-append, length-drop,
}
use skytap.Registry.{trim_ring}

-- The last `n` members of a list.
abbrev pub last {ℓ} : {A : Type ℓ} → ℕ → List A → List A
last n xs = drop (length xs - n) xs

module _ {ℓ} {A : Type ℓ} where
  pub trim_ring-eq-last : (n : ℕ) (xs : List A) → trim_ring n xs ≡ last n xs
  unfolding trim_ring
  trim_ring-eq-last n xs = elim (Bool-cases (ltb n (length xs))) [
    | inl over ↦ rw over
    | inr fits ↦ let none_over : length xs - n ≡ 0 = ground arith in rw (fits, none_over)
  ]

  drop-append : (k : ℕ) (xs ys : List A) → k ≤ length xs → drop k (xs ++ ys) ≡ drop k xs ++ ys
  drop-append zero xs ys h = refl
  drop-append (suc k) [] ys h = absurd (omega arith)
  drop-append (suc k) (x ∷ xs) ys h = drop-append k xs ys (omega arith)

  pub drop-nil : (k : ℕ) → drop {A = A} k [] ≡ []
  drop-nil zero = refl
  drop-nil (suc k) = refl

  drop-drop : (k j : ℕ) (xs : List A) → drop k (drop j xs) ≡ drop (j + k) xs
  drop-drop k zero xs = ap (λ (t : ℕ). drop t xs) (omega arith)
  drop-drop k (suc j) [] = drop-nil k ∙ sym (drop-nil (suc j + k))
  drop-drop k (suc j) (x ∷ xs) =
      let e : suc (j + k) ≡ suc j + k = omega arith in
      drop-drop k j xs ∙ ap (λ (t : ℕ). drop t (x ∷ xs)) e

  -- Keeping the last `n` before an append changes nothing behind it.
  pub last-last-append :
      (n : ℕ) (xs : List A) (x : A) → last n (last n xs ++ x ∷ []) ≡ last n (xs ++ x ∷ [])
  last-last-append n xs x =
      let k = length xs - n in
      last n (last n xs ++ x ∷ [])
      ≡⟨ ap (last n) (sym (drop-append k xs (x ∷ []) (omega arith))) ⟩
        last n (drop k (xs ++ x ∷ []))
      ≡⟨ drop-drop _ k (xs ++ x ∷ []) ⟩
        drop (k + (length (drop k (xs ++ x ∷ [])) - n)) (xs ++ x ∷ [])
      ≡⟨ ap (λ (t : ℕ). drop t (xs ++ x ∷ []))
          (omega (arith, length-drop k (xs ++ x ∷ []), length-append xs (x ∷ []))) ⟩
        last n (xs ++ x ∷ []) ∎

  pub length-last : (n : ℕ) (xs : List A) → length (last n xs) ≤ n
  length-last n xs = omega (arith, length-drop (length xs - n) xs)
