-- ===== src/Ws.antt =====
-- ws.go and hub.go: WebSocket frames, and the hub that sends each flow to every client.
pub mod Bytes
pub mod RoundTrip
pub mod Masking
pub mod Delivery
pub mod Session
pub mod Ending
pub mod Serving
use Prim.Native.Nat.{bit_and, bit_or, bit_xor}
use skytap.Common.{
  ℕ, zero, suc, ◌+◌, ◌*◌, ◌/◌, ◌%◌, ◌^◌, Bool, true, false, List, [], ◌∷◌, ◌++◌, Option, none, some,
  map, length, take, drop, ltb, leb, eqb, if◌then◌else◌,
}
use skytap.Text.{Str}
use skytap.GoMap
use skytap.GoMap.{GoMap}

-- Two bytes, the more significant one first.
abbrev pub put_uint16 : ℕ → Str
put_uint16 n = n / 256 % 256 ∷ n % 256 ∷ []

-- binary.BigEndian.PutUint64
abbrev pub put_uint64 : ℕ → Str
put_uint64 n =
    n / 0x100000000000000 % 256
    ∷ n / 0x1000000000000 % 256
    ∷ n / 0x10000000000 % 256
    ∷ n / 0x100000000 % 256
    ∷ n / 0x1000000 % 256
    ∷ n / 0x10000 % 256
    ∷ n / 0x100 % 256
    ∷ n % 256
    ∷ []

-- binary.BigEndian.Uint16 and Uint64, from the bytes read so far.
unfoldable pub big_endian : ℕ → Str → ℕ
big_endian acc [] = acc
big_endian acc (b ∷ bs) = big_endian (acc * 256 + b) bs

unfoldable pub frame_header : ℕ → ℕ → Str
frame_header opcode n =
    if ltb n 126
    then bit_or 0x80 opcode ∷ n ∷ []
    else if ltb n 65536
    then bit_or 0x80 opcode ∷ 126 ∷ put_uint16 n
    else bit_or 0x80 opcode ∷ 127 ∷ put_uint64 n

-- writeWSFrame: what it writes to a connection that takes it.
unfoldable pub write_frame : ℕ → Str → Str
unfolding frame_header
write_frame opcode payload = frame_header opcode (length payload) ++ payload

-- How reading ends without a payload: the stream is too short, the client closes, or the length is
-- negative as an int, for which make panics.
pub data Failure : Type 0 where
  short closed panic : Failure

pub data Read {ℓ} (A : Type ℓ) : Type ℓ where
  got : A → Read A
  failed : Failure → Read A

infixl 5 ◌>>=◌
abbrev pub ◌>>=◌ {ℓ κ} : {A : Type ℓ} {B : Type κ} → Read A → (A → Read B) → Read B
got a >>= f = f a
failed e >>= f = failed e

-- io.ReadFull of `n` bytes: the bytes, and what is left of the stream.
unfoldable pub read_full : ℕ → Str → Read (Str × Str)
read_full n s = if leb n (length s) then got (take n s, drop n s) else failed short

-- The length that follows the header, for the seven bits `n` of its second byte.
unfoldable pub read_length : ℕ → Str → Read (ℕ × Str)
unfolding read_full big_endian
read_length n s =
    if eqb n 126
    then (do (ext, rest) ← read_full 2 s; got (big_endian 0 ext, rest))
    else if eqb n 127
    then (do (ext, rest) ← read_full 8 s; got (big_endian 0 ext, rest))
    else got (n, s)

unfoldable pub read_mask : Bool → Str → Read (Str × Str)
unfolding read_full
read_mask masked s = if masked then read_full 4 s else got ([], s)

abbrev pub byte_at : Str → ℕ → ℕ
byte_at [] i = 0
byte_at (b ∷ bs) zero = b
byte_at (b ∷ bs) (suc i) = byte_at bs i

-- payload[i] ^= mask[i%4], from the index `i` on
unfoldable pub unmask : Str → ℕ → Str → Str
unmask mask i [] = []
unmask mask i (b ∷ bs) = bit_xor b (byte_at mask (i % 4)) ∷ unmask mask (i + 1) bs

-- The least length for which make panics: 2 ^ 48 bytes are the most that an allocation can have on a
-- 64-bit Linux, and from 2 ^ 63 on a length is negative as an int. The memory is taken to be large
-- enough for what is less.
abbrev pub make_limit : ℕ
make_limit = 281474976710657

unfoldable pub read_payload : ℕ → Bool → ℕ → Str → Read (Str × Str)
unfolding read_mask read_full unmask
read_payload h0 masked n s = do
  (mask, s') ← read_mask masked s
  if leb make_limit n then failed panic else do
    (payload, rest) ← read_full n s'
    if eqb (bit_and h0 0x0f) 8
        then failed closed
        else got (if masked then unmask mask 0 payload else payload, rest)

unfoldable pub read_frame : Str → Read (Str × Str)
unfolding read_length read_payload
read_frame [] = failed short
read_frame (h0 ∷ []) = failed short
read_frame (h0 ∷ h1 ∷ s) = do
  (n, rest) ← read_length (bit_and h1 0x7f) s
  read_payload h0 (if eqb (bit_and h1 0x80) 0 then false else true) n rest

-- Hub: the connected clients, each with the bytes that have been written to it.
pub record Hub : Type 0 where
  pub clients : GoMap Str

abbrev pub new_hub : Hub
new_hub = record { clients = [] }

unfoldable pub add_client : Hub → Str → Hub
add_client h c = record { clients = GoMap.put h.clients c [] }

unfoldable pub remove_client : Hub → Str → Hub
remove_client h c = record { clients = GoMap.delete h.clients c }

-- wsConn.send
unfoldable pub send : Str → Str → Str
unfolding write_frame
send payload written = written ++ write_frame 1 payload

unfoldable pub send_all : Str → GoMap Str → GoMap Str
unfolding send
send_all b [] = []
send_all b ((c, written) ∷ cs) = (c, send b written) ∷ send_all b cs

-- Publish of a flow whose JSON text is `b`; a text that cannot be made is `none`.
unfoldable pub publish : Hub → Option Str → Hub
unfolding send_all
publish h none = h
publish h (some b) = record { clients = send_all b h.clients }
