-- ===== src/Text.antt =====
-- Go strings as byte sequences, and the functions of package strings that the program calls.
pub mod Equality
pub mod Prefix
pub mod Utf8
use Prim.Native.Char.{code}
use skytap.Common.{
  ℕ, zero, suc, ◌+◌, ◌-◌, Bool, true, false, ◌&&◌, ◌||◌, List, [], ◌∷◌, ◌++◌, map, String, leb, ltb,
  eqb, if◌then◌else◌, all, Option, none, some,
}

-- A Go string: its bytes, each below 256.
abbrev pub Str : Type 0
Str = List ℕ

-- The bytes of an ASCII literal.
abbrev pub codes : String → Str
codes String.[] = []
codes (String.◌∷◌ c s) = code c ∷ codes s

infix 50 ◌==◌
unfoldable pub ◌==◌ : Str → Str → Bool
[] == [] = true
[] == (y ∷ t) = false
(x ∷ s) == [] = false
(x ∷ s) == (y ∷ t) = eqb x y && s == t

-- What the Unicode tables of Go's strings package give beyond ASCII. Each function is called only
-- on an argument with a byte of 0x80 or more.
pub record Unicode : Type 0 where
  pub upper : Str → Str
  pub lower : Str → Str
  pub fold : Str → Str → Bool
  pub trim : Str → Str

unfoldable pub is_ascii : Str → Bool
is_ascii s = all (λ c. ltb c 128) s

unfoldable pub upper_byte : ℕ → ℕ
upper_byte c = if leb b'a' c && leb c b'z' then c - 32 else c

unfoldable pub lower_byte : ℕ → ℕ
lower_byte c = if leb b'A' c && leb c b'Z' then c + 32 else c

abbrev is_space : ℕ → Bool
is_space c = eqb c 32 || (leb 9 c && leb c 13)

unfoldable pub trim_left : Str → Str
trim_left [] = []
trim_left (c ∷ s) = if is_space c then trim_left s else c ∷ s

-- A trailing space is dropped when what follows it has been dropped whole.
unfoldable pub trim_right : Str → Str
trim_right [] = []
trim_right (c ∷ s) =
    let r = trim_right s in elim r [ [] ↦ if is_space c then [] else c ∷ [] | x ∷ xs ↦ c ∷ x ∷ xs ]

module _ (u : Unicode) where
  -- strings.ToUpper
  unfoldable pub to_upper : Str → Str
  to_upper s = if is_ascii s then map upper_byte s else u.upper s

  -- strings.ToLower
  unfoldable pub to_lower : Str → Str
  to_lower s = if is_ascii s then map lower_byte s else u.lower s

  -- strings.EqualFold
  unfoldable pub equal_fold : Str → Str → Bool
  equal_fold s t =
      if is_ascii s && is_ascii t then map lower_byte s == map lower_byte t else u.fold s t

  -- strings.TrimSpace
  unfoldable pub trim_space : Str → Str
  trim_space s = if is_ascii s then trim_right (trim_left s) else u.trim s

-- strings.CutPrefix: the rest behind the prefix, if it is there.
unfoldable pub cut_prefix : Str → Str → Option Str
cut_prefix s [] = some s
cut_prefix [] (y ∷ t) = none
cut_prefix (x ∷ s) (y ∷ t) = if eqb x y then cut_prefix s t else none

-- strings.HasPrefix
unfoldable pub has_prefix : Str → Str → Bool
unfolding cut_prefix
has_prefix s t = elim (cut_prefix s t) [ none ↦ false | some r ↦ true ]

-- strings.TrimPrefix
unfoldable pub trim_prefix : Str → Str → Str
unfolding cut_prefix
trim_prefix s t = elim (cut_prefix s t) [ none ↦ s | some r ↦ r ]

-- strings.Contains
unfoldable pub contains : Str → Str → Bool
unfolding has_prefix
contains [] t = has_prefix [] t
contains (c ∷ s) t = has_prefix (c ∷ s) t || contains s t

-- strings.Split by one byte: always one part more than there are such bytes.
unfoldable pub split_on : ℕ → Str → Str × List Str
split_on b [] = ([], [])
split_on b (c ∷ s) =
    let (first, others) = split_on b s in
    if eqb c b then ([], first ∷ others) else (c ∷ first, others)

-- strings.TrimLeft and strings.TrimRight by a test of the bytes.
unfoldable pub strip_left : (ℕ → Bool) → Str → Str
strip_left p [] = []
strip_left p (c ∷ s) = let rest = strip_left p s in if p c then rest else c ∷ s

unfoldable pub strip_right : (ℕ → Bool) → Str → Str
strip_right p [] = []
strip_right p (c ∷ s) = elim (strip_right p s) [
  | [] ↦ if p c then [] else c ∷ []
  | d ∷ t ↦ c ∷ d ∷ t
]
