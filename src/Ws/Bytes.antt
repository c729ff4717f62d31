-- ===== src/Ws/Bytes.antt =====
-- Bit masks of a frame header as arithmetic, each checked on every byte, and the lengths in it.
use Prim.Native.Nat.{bit_and, bit_or, bit_xor}
use mathlib.Core.Path.{subst}
use skytap.Common.{
  ◌≤◌, ℕ, zero, suc, ◌*◌, ◌/◌, ◌%◌, ◌<◌, ◌≡◌, refl, Bool, true, ◌+◌, Bool-cases, inl, inr, false,
  if◌then◌else◌, arith, eqb, eqb_iff,
}
use skytap.Ws.{put_uint16, put_uint64, big_endian}

-- The test of the `count` numbers from `first` on.
each_from : (ℕ → Bool) → ℕ → ℕ → Bool
each_from test first zero = true
each_from test first (suc count) = if test first then each_from test (suc first) count else false

each_from_at :
    (test : ℕ → Bool) (first count i : ℕ)
    → first ≤ i
    → i < first + count
    → each_from test first count ≡ true
    → test i ≡ true
unfolding each_from
each_from_at test first zero i low high e = absurd (omega arith)
each_from_at test first (suc count) i low high e = elim (Bool-cases (test first)) [
  | inr failed ↦ absurd (cc (rw failed at e))
  | inl passed ↦ elim (Bool-cases (eqb first i)) [
    | inl here ↦ subst (λ k. test k ≡ true) ((eqb_iff first i).0 here) passed
    | inr later ↦
        each_from_at test (suc first) count i (ground (arith, eqb_iff first i)) (omega arith)
          (rw passed at e)
  ]
]

-- Two functions that agree on the first numbers by computation agree at each of them.
agree_below :
    (f g : ℕ → ℕ) (count : ℕ)
    → each_from (λ b. eqb (f b) (g b)) 0 count ≡ true
    → (b : ℕ) → b < count
    → f b ≡ g b
agree_below f g count table b bound =
    (eqb_iff (f b) (g b)).0
      (each_from_at (λ x. eqb (f x) (g x)) 0 count b (omega arith) (omega arith) table)

pub low_bits : (b : ℕ) → b < 256 → bit_and b 0x7f ≡ b % 128
unfolding each_from
low_bits = agree_below (λ b. bit_and b 0x7f) (λ b. b % 128) 256 refl

pub high_bit : (b : ℕ) → b < 256 → bit_and b 0x80 ≡ b / 128 * 128
unfolding each_from
high_bit = agree_below (λ b. bit_and b 0x80) (λ b. b / 128 * 128) 256 refl

pub opcode_bits : (op : ℕ) → op < 16 → bit_and (bit_or 0x80 op) 0x0f ≡ op
unfolding each_from
opcode_bits = agree_below (λ b. bit_and (bit_or 0x80 b) 0x0f) (λ b. b) 16 refl

-- For the byte `a`, the row of all bytes `b`.
xor_row : ℕ → Bool
xor_row a = each_from (λ b. eqb (bit_xor (bit_xor a b) b) a) 0 256

xor_rows : each_from xor_row 0 256 ≡ true
unfolding each_from xor_row
xor_rows = refl

pub xor_twice : (a b : ℕ) → a < 256 → b < 256 → bit_xor (bit_xor a b) b ≡ a
unfolding xor_row
xor_twice a b ha hb =
    let row = each_from_at xor_row 0 256 a (omega arith) (omega arith) xor_rows in
    (eqb_iff (bit_xor (bit_xor a b) b) a).0
      (each_from_at (λ y. eqb (bit_xor (bit_xor a y) y) a) 0 256 b (omega arith) (omega arith) row)

pub big_endian-put_uint16 : (n : ℕ) → n < 65536 → big_endian 0 (put_uint16 n) ≡ n
unfolding big_endian
big_endian-put_uint16 n h = omega arith

pub big_endian-put_uint64 : (n : ℕ) → n < 0x10000000000000000 → big_endian 0 (put_uint64 n) ≡ n
unfolding big_endian
big_endian-put_uint64 n h = omega arith
