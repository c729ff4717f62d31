-- ===== src/Net/Decimal.antt =====
-- Decimal numbers: the printing by `%d` and FormatInt, and the digit loops of main.go.
use skytap.Common.{
  ℕ, zero, suc, ◌+◌, ◌-◌, ◌*◌, ◌/◌, ◌%◌, ◌<◌, ◌≤◌, ◌≡◌, ◌∙◌, Bool, ◌&&◌, [], ◌∷◌, ◌++◌, Option,
  none, some, ltb, leb, arith, if◌then◌else◌, All, All-append, Bool-cases, inl, inr,
}
use skytap.Text.{Str}

-- Fuel: a number above the value is enough, since each round divides by ten.
unfoldable pub decimal_fuel : ℕ → ℕ → Str
decimal_fuel zero n = []
decimal_fuel (suc f) n =
    let front = decimal_fuel f (n / 10) in
    if ltb n 10 then (n + 48) ∷ [] else front ++ (n % 10 + 48) ∷ []

unfoldable pub decimal : ℕ → Str
unfolding decimal_fuel
decimal n = decimal_fuel (suc n) n

abbrev pub uint64_mod : ℕ
uint64_mod = 18446744073709551616

abbrev is_digit : ℕ → Bool
is_digit c = leb 48 c && leb c 57

-- n = n*10 + int(c-'0') over the digits of a text, on the bit pattern of an int; `none` when a
-- character is no digit.
unfoldable pub digits : ℕ → Str → Option ℕ
digits n [] = some n
digits n (c ∷ s) = if is_digit c then digits ((n * 10 + (c - 48)) % uint64_mod) s else none

abbrev pub IsDigits : Str → Type 0
IsDigits = All (λ c. (48 ≤ c) × (c ≤ 57))

pub decimal_fuel-IsDigits : (f n : ℕ) → IsDigits (decimal_fuel f n)
unfolding decimal_fuel
decimal_fuel-IsDigits zero n = tt
decimal_fuel-IsDigits (suc f) n = elim (Bool-cases (ltb n 10)) [
  | inl one ↦ rw one ((ground arith, ground arith), tt)
  | inr more ↦ rw more (
      All-append _ (decimal_fuel f (n / 10)) _ (decimal_fuel-IsDigits f (n / 10))
        ((omega arith, omega arith), tt))
]

digits-append : (n : ℕ) (s t : Str) (m : ℕ) → digits n s ≡ some m → digits n (s ++ t) ≡ digits m t
unfolding digits
digits-append n [] t m e = ground arith
digits-append n (c ∷ s) t m e =
    ground (arith, digits-append ((n * 10 + (c - 48)) % uint64_mod) s t m)

digits-decimal_fuel : (f n : ℕ) → n < f → n < uint64_mod → digits 0 (decimal_fuel f n) ≡ some n
unfolding decimal_fuel digits
digits-decimal_fuel zero n h k = absurd (omega arith)
digits-decimal_fuel (suc f) n h k = elim (Bool-cases (ltb n 10)) [
  | inl one ↦ rw one (ground arith)
  | inr more ↦ rw more (
      digits-append 0 (decimal_fuel f (n / 10)) ((n % 10 + 48) ∷ []) (n / 10)
        (digits-decimal_fuel f (n / 10) (ground arith) (omega arith))
      ∙ ground arith)
]

-- Reading what was printed gives the number, if it fits in 64 bits.
pub digits-decimal : (n : ℕ) → n < uint64_mod → digits 0 (decimal n) ≡ some n
unfolding decimal
digits-decimal n h = digits-decimal_fuel (suc n) n (omega arith) h
