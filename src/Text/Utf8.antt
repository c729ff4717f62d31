-- ===== src/Text/Utf8.antt =====
-- UTF-8 as Go reads it: the runes of a string, and utf8.Valid.
use skytap.Common.{
  ℕ, zero, suc, ◌+◌, ◌*◌, ◌%◌, Bool, true, false, ◌&&◌, List, [], ◌∷◌, Option, none, some, leb, ltb,
  eqb, if◌then◌else◌,
}
use skytap.Text.{Str}

abbrev in_range : ℕ → ℕ → ℕ → Bool
in_range lo hi b = leb lo b && leb b hi

abbrev is_tail : ℕ → Bool
is_tail b = in_range 0x80 0xbf b

-- The second byte that a first byte of a three-byte or four-byte rune allows.
abbrev second_ok : ℕ → ℕ → Bool
second_ok b0 b1 =
    if eqb b0 0xe0
    then in_range 0xa0 0xbf b1
    else if eqb b0 0xed
    then in_range 0x80 0x9f b1
    else if eqb b0 0xf0
    then in_range 0x90 0xbf b1
    else if eqb b0 0xf4
    then in_range 0x80 0x8f b1
    else is_tail b1

abbrev when_ok : Bool → ℕ → ℕ → Option (ℕ × ℕ)
when_ok ok r w = if ok then some (r, w) else none

two : ℕ → Str → Option (ℕ × ℕ)
two b0 [] = none
two b0 (b1 ∷ s) = when_ok (is_tail b1) (b0 % 32 * 64 + b1 % 64) 1

three : ℕ → Str → Option (ℕ × ℕ)
three b0 (b1 ∷ b2 ∷ s) =
    when_ok (second_ok b0 b1 && is_tail b2) (b0 % 16 * 4096 + b1 % 64 * 64 + b2 % 64) 2
three b0 _ = none

four : ℕ → Str → Option (ℕ × ℕ)
four b0 (b1 ∷ b2 ∷ b3 ∷ s) =
    when_ok (second_ok b0 b1 && (is_tail b2 && is_tail b3))
      (b0 % 8 * 262144 + b1 % 64 * 4096 + b2 % 64 * 64 + b3 % 64) 3
four b0 _ = none

-- The rune that begins with byte `b0`, and how many bytes of the rest belong to it.
unfoldable pub decode_rune : ℕ → Str → Option (ℕ × ℕ)
unfolding two three four
decode_rune b0 s =
    if ltb b0 0x80
    then some (b0, 0)
    else if in_range 0xc2 0xdf b0
    then two b0 s
    else if in_range 0xe0 0xef b0
    then three b0 s
    else if in_range 0xf0 0xf4 b0
    then four b0 s
    else none

-- An invalid byte counts as U+FFFD and is passed alone.
abbrev or_error : Option (ℕ × ℕ) → ℕ × ℕ
or_error none = (0xfffd, 0)
or_error (some p) = p

-- The first argument counts the bytes that belong to a rune already read.
unfoldable pub runes_from : ℕ → Str → List ℕ
unfolding decode_rune
runes_from k [] = []
runes_from zero (b ∷ s) = let (r, w) = or_error (decode_rune b s) in r ∷ runes_from w s
runes_from (suc k) (b ∷ s) = runes_from k s

-- for _, c := range s
unfoldable pub runes : Str → List ℕ
unfolding runes_from
runes s = runes_from 0 s

unfoldable valid_from : ℕ → Str → Bool
unfolding decode_rune
valid_from k [] = true
valid_from zero (b ∷ s) = elim (decode_rune b s) [ none ↦ false | some (r, w) ↦ valid_from w s ]
valid_from (suc k) (b ∷ s) = valid_from k s

-- utf8.Valid
unfoldable pub valid : Str → Bool
unfolding valid_from
valid s = valid_from 0 s
