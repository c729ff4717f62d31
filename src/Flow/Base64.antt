-- ===== src/Flow/Base64.antt =====
-- encoding/base64, the standard alphabet with padding.
use mathlib.Core.Path.{ap₂}
use skytap.Common.{
  ap, ℕ, ◌+◌, ◌-◌, ◌*◌, ◌/◌, ◌%◌, ◌<◌, ◌≡◌, refl, false, [], ◌∷◌, ltb, leb, eqb, arith,
  if◌then◌else◌, All,
}
use skytap.Text.{Str}

unfoldable symbol : ℕ → ℕ
symbol n =
    if ltb n 26
    then n + 65
    else if ltb n 52
    then n + 71
    else if ltb n 62
    then n - 52 + 48
    else if eqb n 62
    then b'+'
    else b'/'

abbrev pad : ℕ
pad = b'='

unfoldable pub encode : Str → Str
unfolding symbol
encode [] = []
encode (a ∷ []) = symbol (a / 4) ∷ symbol (a % 4 * 16) ∷ pad ∷ pad ∷ []
encode (a ∷ b ∷ []) = symbol (a / 4) ∷ symbol (a % 4 * 16 + b / 16) ∷ symbol (b % 16 * 4) ∷ pad ∷ []
encode (a ∷ b ∷ c ∷ s) =
    symbol (a / 4)
    ∷ symbol (a % 4 * 16 + b / 16)
    ∷ symbol (b % 16 * 4 + c / 64)
    ∷ symbol (c % 64)
    ∷ encode s

-- The value of a symbol; other bytes count as the last one.
unfoldable value : ℕ → ℕ
value c =
    if leb 97 c
    then c - 71
    else if leb 65 c
    then c - 65
    else if leb 48 c
    then c + 4
    else if eqb c b'+'
    then 62
    else 63

-- The bytes that a text of four-symbol groups stands for (RFC 4648).
unfoldable pub decode : Str → Str
unfolding value
decode (p ∷ q ∷ r ∷ s ∷ rest) =
    if eqb r pad
    then (value p * 4 + value q / 16) ∷ []
    else if eqb s pad
    then (value p * 4 + value q / 16) ∷ (value q % 16 * 16 + value r / 4) ∷ []
    else (value p * 4 + value q / 16)
      ∷ (value q % 16 * 16 + value r / 4)
      ∷ (value r % 4 * 64 + value s)
      ∷ decode rest
decode _ = []

value-symbol : (n : ℕ) → n < 64 → value (symbol n) ≡ n
unfolding symbol value
value-symbol n h = ground arith

symbol-not-pad : (n : ℕ) → n < 64 → eqb (symbol n) pad ≡ false
unfolding symbol
symbol-not-pad n h = ground arith

module _ (a b c : ℕ) (ha : a < 256) (hb : b < 256) (hc : c < 256) where
  first-byte : value (symbol (a / 4)) * 4 + value (symbol (a % 4 * 16 + b / 16)) / 16 ≡ a
  first-byte =
      omega (
        arith,
        value-symbol (a / 4) (omega arith),
        value-symbol (a % 4 * 16 + b / 16) (omega arith),
      )

  second-byte :
      value (symbol (a % 4 * 16 + b / 16)) % 16 * 16 + value (symbol (b % 16 * 4 + c / 64)) / 4 ≡ b
  second-byte = omega (
    arith,
    value-symbol (a % 4 * 16 + b / 16) (omega arith),
    value-symbol (b % 16 * 4 + c / 64) (omega arith),
  )

  third-byte : value (symbol (b % 16 * 4 + c / 64)) % 4 * 64 + value (symbol (c % 64)) ≡ c
  third-byte =
      omega (
        arith,
        value-symbol (b % 16 * 4 + c / 64) (omega arith),
        value-symbol (c % 64) (omega arith),
      )

last-of-one : (a : ℕ) → a < 256 → value (symbol (a / 4)) * 4 + value (symbol (a % 4 * 16)) / 16 ≡ a
last-of-one a h =
    omega (arith, value-symbol (a / 4) (omega arith), value-symbol (a % 4 * 16) (omega arith))

last-of-two :
    (a b : ℕ)
    → a < 256
    → b < 256
    → value (symbol (a % 4 * 16 + b / 16)) % 16 * 16 + value (symbol (b % 16 * 4)) / 4 ≡ b
last-of-two a b ha hb = omega (
  arith,
  value-symbol (a % 4 * 16 + b / 16) (omega arith),
  value-symbol (b % 16 * 4) (omega arith),
)

-- A text decodes to the bytes that it encodes.
pub decode-encode : (s : Str) → All (λ b. b < 256) s → decode (encode s) ≡ s
unfolding decode encode
decode-encode [] h = refl
decode-encode (a ∷ []) (ha, h) = ap (λ x. x ∷ []) (last-of-one a ha)
decode-encode (a ∷ b ∷ []) (ha, (hb, h)) =
    rw (symbol-not-pad (b % 16 * 4) (omega arith))
      (ap₂ (λ x y. x ∷ y ∷ []) (first-byte a b 0 ha hb (omega arith)) (last-of-two a b ha hb))
decode-encode (a ∷ b ∷ c ∷ s) (ha, (hb, (hc, h))) =
    rw
      (
        symbol-not-pad (b % 16 * 4 + c / 64) (omega arith),
        symbol-not-pad (c % 64) (omega arith),
        first-byte a b c ha hb hc,
        second-byte a b c ha hb hc,
        third-byte a b c ha hb hc,
        decode-encode s h,
      )
      refl
