-- ===== src/Script/Offsets.antt =====
-- What the offsets of the clock functions give.
use skytap.Common.{
  ℕ, ◌+◌, ◌-◌, ◌/◌, ◌%◌, ◌^◌, ◌<◌, ◌≤◌, ◌≡◌, refl, arith, true, false, List, ◌∷◌, Option, some,
}
use skytap.Text.{Str}
use skytap.Script.Clock.{
  Thread, Passed, int, number, check_script_deadline, as_int, offset_of, duration, in_time, iso,
  date, plus, int64_mod,
}

-- Both conversions read an Int that fits, whichever of them is taken.
offset_of-positive :
    (n : ℕ) (args : List Passed) → n < 9223372036854775808 → offset_of (int false n ∷ args) ≡ n
unfolding offset_of as_int
offset_of-positive n args h = ground arith

offset_of-negative :
    (n : ℕ) (args : List Passed)
    → n < 9223372036854775809
    → offset_of (int true n ∷ args) ≡ (int64_mod - n) % int64_mod
unfolding offset_of as_int
offset_of-negative n args h = ground arith

module _ (thread : Option Thread) (now : ℕ) (format : Str → ℕ → Str) where
  -- Within the deadline, plus moves the seconds of the clock by an Int, forwards as long as the sum fits
  -- in an int64, and backwards as long as it is not below zero.
  plus_lem :
      (n k : ℕ) (args : List Passed)
      → check_script_deadline thread now ≡ false
      → now / 1000000000 + n < 9223372036854775808
      → k ≤ now / 1000000000
      → (plus thread now format (int false n ∷ args) ≡ some (number (now / 1000000000 + n)))
        × (plus thread now format (int true k ∷ args) ≡ some (number (now / 1000000000 - k)))
  unfolding plus in_time
  plus_lem n k args alive fits back =
      let seconds = now / 1000000000 in
      let later : (seconds + n) % int64_mod ≡ seconds + n = omega arith in
      let earlier : (seconds + (int64_mod - k) % int64_mod) % int64_mod ≡ seconds - k =
        omega arith in
      rw
        (
          alive,
          offset_of-positive n args (omega arith),
          offset_of-negative k args (omega arith),
          later,
          earlier,
        )
        (refl, refl)

  -- iso and date do not tell an offset from one that is 2 ^ 55 seconds later, although both fit in an
  -- int64: the duration in nanoseconds wraps around.
  pub iso_period :
      (n : ℕ) (args : List Passed)
      → n + 2 ^ 55 < 9223372036854775808
      → (iso thread now format (int false (n + 2 ^ 55) ∷ args)
          ≡ iso thread now format (int false n ∷ args))
        × (date thread now format (int false (n + 2 ^ 55) ∷ args)
            ≡ date thread now format (int false n ∷ args))
  unfolding iso date
  iso_period n args fits =
      let same : duration (n + 2 ^ 55) ≡ duration n = unfold duration in omega arith in
      rw (offset_of-positive (n + 2 ^ 55) args fits, offset_of-positive n args (omega arith), same)
        (refl, refl)
