-- ===== src/Ws/RoundTrip.antt =====
-- Reading back what writeWSFrame wrote.
use Prim.Native.Nat.{bit_and, bit_or}
use skytap.Common.{
  ℕ, ◌<◌, ◌≡◌, ◌≢◌, refl, true, false, arith, eqb, ◌∷◌, ◌++◌, length, leb, ltb, length-append,
  take-length-append, drop-length-append, Bool-cases, inl, inr, append_assoc,
}
use skytap.Text.{Str}
use skytap.Ws.{
  put_uint16, put_uint64, frame_header, write_frame, got, read_full, read_length, read_payload,
  read_frame, make_limit,
}
use skytap.Ws.Bytes.{low_bits, high_bit, opcode_bits, big_endian-put_uint16, big_endian-put_uint64}

pub read_full-append : (a rest : Str) → read_full (length a) (a ++ rest) ≡ got (a, rest)
unfolding read_full
read_full-append a rest =
    let enough : leb (length a) (length (a ++ rest)) ≡ true =
      ground (arith, length-append a rest) in
    rw (enough, take-length-append, drop-length-append) refl

-- The first two bytes of a frame with no mask.
read_frame_plain :
    (h0 h1 n : ℕ) (s rest : Str)
    → h1 < 128
    → read_length h1 s ≡ got (n, rest)
    → read_frame (h0 ∷ h1 ∷ s) ≡ read_payload h0 false n rest
unfolding read_frame
read_frame_plain h0 h1 n s rest h e =
    let low : bit_and h1 0x7f ≡ h1 = omega (arith, low_bits h1 (omega arith)) in
    let high : bit_and h1 0x80 ≡ 0 = omega (arith, high_bit h1 (omega arith)) in
    rw (low, high, e) refl

pub read_length-small : (n : ℕ) (s : Str) → n < 126 → read_length n s ≡ got (n, s)
unfolding read_length
read_length-small n s h = ground arith

pub read_length-medium :
    (n : ℕ) (s : Str) → n < 65536 → read_length 126 (put_uint16 n ++ s) ≡ got (n, s)
unfolding read_length
read_length-medium n s h = rw (read_full-append (put_uint16 n) s, big_endian-put_uint16 n h) refl

pub read_length-large :
    (n : ℕ) (s : Str) → n < 0x10000000000000000 → read_length 127 (put_uint64 n ++ s) ≡ got (n, s)
unfolding read_length
read_length-large n s h = rw (read_full-append (put_uint64 n) s, big_endian-put_uint64 n h) refl

-- The header that is written announces the length of the payload.
pub read_frame-frame_header :
    (op n : ℕ) (s : Str)
    → n < 0x10000000000000000
    → read_frame (frame_header op n ++ s) ≡ read_payload (bit_or 0x80 op) false n s
unfolding frame_header
read_frame-frame_header op n s h = elim (Bool-cases (ltb n 126)) [
  | inl small ↦
      rw (frame_header, small)
        (read_frame_plain _ n n s s (ground arith) (read_length-small n s (ground arith)))
  | inr small ↦ elim (Bool-cases (ltb n 65536)) [
    | inl medium ↦
        rw (frame_header, small, medium)
          (read_frame_plain _ 126 n _ s (omega arith) (read_length-medium n s (ground arith)))
    | inr large ↦
        rw (frame_header, small, large)
          (read_frame_plain _ 127 n _ s (omega arith) (read_length-large n s h))
  ]
]

-- A frame of any opcode but close, with any payload that fits in memory, is read back whole, and
-- the reading stops behind it.
pub read_frame-write_frame :
    (op : ℕ) (payload rest : Str)
    → op < 16
    → op ≢ 8
    → length payload < make_limit
    → read_frame (write_frame op payload ++ rest) ≡ got (payload, rest)
unfolding write_frame read_payload
read_frame-write_frame op payload rest h ne fits =
    let n = length payload in
    let whole = read_frame-frame_header op n (payload ++ rest) (omega arith) in
    let positive : leb make_limit n ≡ false = ground arith in
    let open_frame : eqb op 8 ≡ false = ground arith in
    rw (append_assoc, whole, read_payload, positive, read_full-append, opcode_bits op h, open_frame)
      refl
