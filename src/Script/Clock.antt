-- ===== src/Script/Clock.antt =====
-- rules.go: the functions of a script that read the clock, and the limits of its thread.
use skytap.Common.{
  ℕ, ◌+◌, ◌*◌, ◌/◌, ◌%◌, ◌^◌, ◌-◌, Bool, false, List, [], ◌∷◌, Option, none, some, ltb, leb,
  or_zero, if◌then◌else◌,
}
use skytap.Text.{Str, codes}

-- A value that a script passes: an Int with its sign and its size, or any other value.
pub data Passed : Type 0 where
  int : Bool → ℕ → Passed
  other : Passed

-- What such a function returns: an Int as the bit pattern of an int64, or a String.
pub data Answer : Type 0 where
  number : ℕ → Answer
  text : Str → Answer

-- starlarkThread: the limit of steps, and the local t0 where it is a time that is set. Times are in
-- nanoseconds since 1970.
pub record Thread : Type 0 where
  pub max_steps : ℕ
  pub t0 : Option ℕ

unfoldable starlark_thread : ℕ → Thread
starlark_thread now = record { max_steps = 10000; t0 = some now }

-- checkScriptDeadline: whether it is an error.
unfoldable pub check_script_deadline : Option Thread → ℕ → Bool
check_script_deadline none now = false
check_script_deadline (some th) now = elim th.t0 [
  | none ↦ false
  | some t0 ↦ ltb (t0 + 50000000) now
]

abbrev pub int64_mod : ℕ
int64_mod = 2 ^ 64

-- The bit pattern of an Int of at most `limit` in size, one more below zero.
unfoldable pub as_int : ℕ → Bool → ℕ → Option ℕ
as_int limit negative n =
    if negative
    then (if leb n (limit + 1) then some ((int64_mod - n) % int64_mod) else none)
    else if leb n limit
    then some n
    else none

-- offsetOf, on the bit pattern of its int64: AsInt32 first, then Int64.
unfoldable pub offset_of : List Passed → ℕ
unfolding as_int
offset_of [] = 0
offset_of (other ∷ args) = 0
offset_of (int negative n ∷ args) = elim (as_int 2147483647 negative n) [
  | some v ↦ v
  | none ↦ or_zero 0 (as_int 9223372036854775807 negative n)
]

-- time.Duration(offset) * time.Second
unfoldable pub duration : ℕ → ℕ
duration offset = offset * 1000000000 % int64_mod

-- `now` is what time.Now gives in the call; `format` is Add of a duration to it in UTC, then Format.
module _ (thread : Option Thread) (now : ℕ) (format : Str → ℕ → Str) where
  unfoldable pub in_time : Answer → Option Answer
  unfolding check_script_deadline
  in_time a = if check_script_deadline thread now then none else some a

  unfoldable now_seconds : List Passed → Option Answer
  unfolding in_time
  now_seconds args = in_time (number (now / 1000000000))

  unfoldable now_ms : List Passed → Option Answer
  unfolding in_time
  now_ms args = in_time (number (now / 1000000))

  unfoldable pub iso : List Passed → Option Answer
  unfolding in_time offset_of duration
  iso args = in_time (text (format (codes "2006-01-02T15:04:05Z07:00") (duration (offset_of args))))

  unfoldable pub date : List Passed → Option Answer
  unfolding in_time offset_of duration
  date args = in_time (text (format (codes "2006-01-02") (duration (offset_of args))))

  unfoldable pub plus : List Passed → Option Answer
  unfolding in_time offset_of
  plus args = in_time (number ((now / 1000000000 + offset_of args) % int64_mod))

-- The five functions of builtins, by their names.
unfoldable pub clock_functions :
    List (Str × (Option Thread → ℕ → (Str → ℕ → Str) → List Passed → Option Answer))
unfolding now_seconds now_ms iso date plus
clock_functions =
    (codes "now", now_seconds)
    ∷ (codes "now_ms", now_ms)
    ∷ (codes "iso", iso)
    ∷ (codes "date", date)
    ∷ (codes "plus", plus)
    ∷ []
