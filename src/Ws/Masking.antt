-- ===== src/Ws/Masking.antt =====
-- Frames as clients send them: masked with four bytes, the length below, at or above the marks.
use mathlib.Core.Path.{subst}
use Prim.Native.Nat.{bit_and, bit_or}
use skytap.Common.{
  ℕ, zero, suc, ◌+◌, ◌%◌, ◌<◌, ◌≤◌, ◌≡◌, refl, ap, true, false, arith, eqb, [], ◌∷◌, ◌++◌, length,
  leb, ltb, Bool-cases, inl, inr, append_assoc, if◌then◌else◌, All,
}
use skytap.Text.{Str}
use skytap.Ws.{
  frame_header, put_uint16, put_uint64, got, failed, closed, panic, read_length, read_mask,
  read_payload, read_frame, read_full, make_limit, unmask, byte_at,
}
use skytap.Ws.Bytes.{low_bits, high_bit, opcode_bits, xor_twice}
use skytap.Ws.RoundTrip.{
  read_full-append, read_frame-frame_header, read_length-small, read_length-medium,
  read_length-large,
}

abbrev pub IsBytes : Str → Type 0
IsBytes = All (λ b. b < 256)

byte_at-lt : (bs : Str) (i : ℕ) → IsBytes bs → byte_at bs i < 256
byte_at-lt [] i h = omega arith
byte_at-lt (b ∷ bs) zero (p, h) = p
byte_at-lt (b ∷ bs) (suc i) (p, h) = byte_at-lt bs i h

-- Masking twice with the same bytes gives the payload back.
unmask-unmask :
    (mask : Str) (i : ℕ) (bs : Str)
    → IsBytes mask
    → IsBytes bs
    → unmask mask i (unmask mask i bs) ≡ bs
unfolding unmask
unmask-unmask mask i [] m h = refl
unmask-unmask mask i (b ∷ bs) m (p, h) =
    rw
      (
        xor_twice b (byte_at mask (i % 4)) p (byte_at-lt mask (i % 4) m),
        unmask-unmask mask (i + 1) bs m h,
      )
      refl

length-unmask : (mask : Str) (i : ℕ) (bs : Str) → length (unmask mask i bs) ≡ length bs
unfolding unmask
length-unmask mask i [] = refl
length-unmask mask i (b ∷ bs) = ap suc (length-unmask mask (i + 1) bs)

-- The header of a masked frame (RFC 6455, 5.2).
unfoldable pub client_header : ℕ → ℕ → Str
client_header op n =
    if ltb n 126
    then bit_or 0x80 op ∷ (128 + n) ∷ []
    else if ltb n 65536
    then bit_or 0x80 op ∷ 254 ∷ put_uint16 n
    else bit_or 0x80 op ∷ 255 ∷ put_uint64 n

unfoldable pub client_frame : ℕ → Str → Str → Str
client_frame op mask payload = client_header op (length payload) ++ (mask ++ unmask mask 0 payload)

read_frame_masked :
    (h0 h1 n : ℕ) (s rest : Str)
    → h1 < 128
    → read_length h1 s ≡ got (n, rest)
    → read_frame (h0 ∷ (128 + h1) ∷ s) ≡ read_payload h0 true n rest
unfolding read_frame
read_frame_masked h0 h1 n s rest h e =
    let low : bit_and (128 + h1) 0x7f ≡ h1 = omega (arith, low_bits (128 + h1) (omega arith)) in
    let high : bit_and (128 + h1) 0x80 ≡ 128 = omega (arith, high_bit (128 + h1) (omega arith)) in
    rw (low, high, e) refl

read_frame-client_header :
    (op n : ℕ) (s : Str)
    → n < 0x10000000000000000
    → read_frame (client_header op n ++ s) ≡ read_payload (bit_or 0x80 op) true n s
unfolding client_header
read_frame-client_header op n s h = elim (Bool-cases (ltb n 126)) [
  | inl small ↦
      rw (client_header, small)
        (read_frame_masked _ n n s s (ground arith) (read_length-small n s (ground arith)))
  | inr small ↦ elim (Bool-cases (ltb n 65536)) [
    | inl medium ↦
        rw (client_header, small, medium)
          (read_frame_masked _ 126 n _ s (omega arith) (read_length-medium n s (ground arith)))
    | inr large ↦
        rw (client_header, small, large)
          (read_frame_masked _ 127 n _ s (omega arith) (read_length-large n s h))
  ]
]

-- A masked frame from a client gives its payload, or the end of the connection where it is a close
-- frame; nothing behind the frame is read.
pub read_frame-client_frame :
    (op m0 m1 m2 m3 : ℕ) (payload rest : Str)
    → op < 16
    → IsBytes (m0 ∷ m1 ∷ m2 ∷ m3 ∷ [])
    → IsBytes payload
    → length payload < make_limit
    → read_frame (client_frame op (m0 ∷ m1 ∷ m2 ∷ m3 ∷ []) payload ++ rest)
      ≡ (if eqb op 8 then failed closed else got (payload, rest))
unfolding client_frame read_mask read_payload
read_frame-client_frame op m0 m1 m2 m3 payload rest h m bytes fits =
    let mask = m0 ∷ m1 ∷ m2 ∷ m3 ∷ [] in
    let n = length payload in
    let whole =
      read_frame-client_header op n (mask ++ (unmask mask 0 payload ++ rest)) (omega arith) in
    let positive : leb make_limit n ≡ false = ground arith in
    let hidden = unmask mask 0 payload in
    let all_read : read_full n (hidden ++ rest) ≡ got (hidden, rest) =
      subst (λ k. read_full k (hidden ++ rest) ≡ got (hidden, rest)) (length-unmask mask 0 payload)
        (read_full-append hidden rest) in
    rw
      (
        append_assoc,
        whole,
        read_payload,
        read_full-append mask (hidden ++ rest),
        positive,
        all_read,
        opcode_bits op h,
        unmask-unmask mask 0 payload m bytes,
      )
      refl

-- A header that announces more than 2 ^ 48 bytes makes the reader panic: a masked one with its mask behind
-- it, and one without a mask, whatever follows.
pub read_frame-panic :
    (op n m0 m1 m2 m3 : ℕ) (rest : Str)
    → make_limit ≤ n
    → n < 0x10000000000000000
    → (read_frame (client_header op n ++ (m0 ∷ m1 ∷ m2 ∷ m3 ∷ rest)) ≡ failed panic)
      × (read_frame (frame_header op n ++ rest) ≡ failed panic)
unfolding read_payload read_mask
read_frame-panic op n m0 m1 m2 m3 rest lo hi =
    let negative : leb make_limit n ≡ true = ground arith in
    (
      rw
          (
            read_frame-client_header op n _ hi,
            read_payload,
            read_full-append (m0 ∷ m1 ∷ m2 ∷ m3 ∷ []) rest,
            negative,
          )
          refl,
      rw (read_frame-frame_header op n rest hi, read_payload, negative) refl,
    )
