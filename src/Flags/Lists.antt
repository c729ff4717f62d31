-- ===== src/Flags/Lists.antt =====
-- Comma-separated lists: the parts, and lists of port numbers.
use skytap.Common.{
  ℕ, ◌+◌, ◌/◌, ◌%◌, ◌<◌, ◌≡◌, refl, true, false, List, [], ◌∷◌, ◌++◌, ltb, arith, All, is_empty,
  Bool-cases, inl, inr, Option-cases,
}
use skytap.Text.{split_on, Str, Unicode, trim_space, is_ascii, trim_left, trim_right}
use skytap.Net.{contains_byte}
use skytap.Net.Decimal.{decimal, decimal_fuel, digits, digits-decimal, IsDigits}
use skytap.Flags.{trimmed_parts, split_csv, positive_numbers, is_positive, parse_ints}
use skytap.Flags.Ports.{decimal-IsDigits, contains_byte-digits}

-- A number that an int holds above zero.
abbrev IsPositive : ℕ → Type 0
IsPositive n = (0 < n) × (n < 9223372036854775808)

positive_numbers-IsPositive : (u : Unicode) (ps : List Str) → All IsPositive (positive_numbers u ps)
unfolding positive_numbers is_positive
positive_numbers-IsPositive u [] = tt
positive_numbers-IsPositive u (p ∷ ps) = elim (Option-cases (digits 0 p)) [
  | inl bad ↦ rw (positive_numbers, bad) (positive_numbers-IsPositive u ps)
  | inr (n, good) ↦ elim (Bool-cases (is_positive u n)) [
    | inl kept ↦
        rw (positive_numbers, good, kept)
          ((ground arith, ground arith), positive_numbers-IsPositive u ps)
    | inr dropped ↦ rw (positive_numbers, good, dropped) (positive_numbers-IsPositive u ps)
  ]
]

-- Whatever the flag says, there is a port to redirect, and every port is above zero.
parse_ints-IsPositive :
    (u : Unicode) (s : Str) → (is_empty (parse_ints u s) ≡ false) × All IsPositive (parse_ints u s)
unfolding parse_ints
parse_ints-IsPositive u s = elim (Bool-cases (is_empty (positive_numbers u (split_csv u s)))) [
  | inl nothing ↦ rw nothing (refl, (ground arith))
  | inr found ↦ rw found (found, positive_numbers-IsPositive u (split_csv u s))
]

-- Numbers joined by commas.
unfoldable comma_list : List ℕ → Str
comma_list [] = []
comma_list (n ∷ []) = decimal n
comma_list (n ∷ m ∷ ns) = decimal n ++ b',' ∷ comma_list (m ∷ ns)

split_on-part :
    (p s : Str)
    → contains_byte b',' p ≡ false
    → split_on b',' (p ++ b',' ∷ s) ≡ (p, (split_on b',' s).0 ∷ (split_on b',' s).1)
unfolding split_on contains_byte
split_on-part [] s h = refl
split_on-part (c ∷ p) s h = ground (arith, split_on-part p s)

split_on-whole : (p : Str) → contains_byte b',' p ≡ false → split_on b',' p ≡ (p, [])
unfolding split_on contains_byte
split_on-whole [] h = refl
split_on-whole (c ∷ p) h = ground (arith, split_on-whole p)

is_ascii-digits : (s : Str) → IsDigits s → is_ascii s ≡ true
unfolding is_ascii
is_ascii-digits [] h = refl
is_ascii-digits (c ∷ s) (d, h) = ground (arith, is_ascii-digits s h)

trim_left-digits : (s : Str) → IsDigits s → trim_left s ≡ s
unfolding trim_left
trim_left-digits [] h = refl
trim_left-digits (c ∷ s) (d, h) = ground arith

trim_right-digits : (s : Str) → IsDigits s → trim_right s ≡ s
unfolding trim_right
trim_right-digits [] h = refl
trim_right-digits (c ∷ []) (d, h) = ground arith
trim_right-digits (c ∷ e ∷ s) (d, h) = rw (trim_right, trim_right-digits (e ∷ s) h) refl

trim_space-digits : (u : Unicode) (s : Str) → IsDigits s → trim_space u s ≡ s
unfolding trim_space
trim_space-digits u s h = rw (is_ascii-digits s h, trim_left-digits s h) (trim_right-digits s h)

is_empty-append-cons : (s : Str) (c : ℕ) → is_empty (s ++ c ∷ []) ≡ false
is_empty-append-cons [] c = refl
is_empty-append-cons (d ∷ s) c = refl

is_empty-decimal : (n : ℕ) → is_empty (decimal n) ≡ false
unfolding decimal decimal_fuel
is_empty-decimal n = elim (Bool-cases (ltb n 10)) [
  | inl one ↦ rw one refl
  | inr more ↦ rw more (is_empty-append-cons (decimal_fuel n (n / 10)) (n % 10 + 48))
]

split_csv-part :
    (u : Unicode) (n : ℕ) (s : Str)
    → split_csv u (decimal n ++ b',' ∷ s) ≡ decimal n ∷ split_csv u s
unfolding split_csv trimmed_parts
split_csv-part u n s =
    rw
      (
        split_on-part (decimal n) s (contains_byte-digits b',' _ (decimal-IsDigits n) refl),
        trim_space-digits u (decimal n) (decimal-IsDigits n),
        is_empty-decimal n,
      )
      refl

split_csv-whole : (u : Unicode) (n : ℕ) → split_csv u (decimal n) ≡ decimal n ∷ []
unfolding split_csv trimmed_parts
split_csv-whole u n =
    rw
      (
        split_on-whole (decimal n) (contains_byte-digits b',' _ (decimal-IsDigits n) refl),
        trim_space-digits u (decimal n) (decimal-IsDigits n),
        is_empty-decimal n,
      )
      refl

positive_numbers-cons :
    (u : Unicode) (n : ℕ) (ps : List Str)
    → IsPositive n
    → positive_numbers u (decimal n ∷ ps) ≡ n ∷ positive_numbers u ps
unfolding positive_numbers is_positive
positive_numbers-cons u n ps h =
    rw (positive_numbers, digits-decimal n (omega arith)) (ground arith)

positive_numbers-comma_list :
    (u : Unicode) (n : ℕ) (ns : List ℕ)
    → All IsPositive (n ∷ ns)
    → positive_numbers u (split_csv u (comma_list (n ∷ ns))) ≡ n ∷ ns
unfolding comma_list
positive_numbers-comma_list u n [] (p, h) =
    rw (split_csv-whole u n, positive_numbers-cons u n [] p) (unfold positive_numbers in refl)
positive_numbers-comma_list u n (m ∷ ns) (p, h) =
    rw
      (
        split_csv-part u n (comma_list (m ∷ ns)),
        positive_numbers-cons u n (split_csv u (comma_list (m ∷ ns))) p,
        positive_numbers-comma_list u m ns h,
      )
      refl

-- A list of ports above zero that is printed with commas is read back as it was.
parse_ints-comma_list :
    (u : Unicode) (n : ℕ) (ns : List ℕ)
    → All IsPositive (n ∷ ns)
    → parse_ints u (comma_list (n ∷ ns)) ≡ n ∷ ns
unfolding parse_ints
parse_ints-comma_list u n ns h = rw (positive_numbers-comma_list u n ns h) refl
