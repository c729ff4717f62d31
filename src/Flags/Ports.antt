-- ===== src/Flags/Ports.antt =====
-- Port numbers that were printed are read back.
use skytap.Common.{
  ℕ, suc, ◌+◌, ◌-◌, ◌*◌, ◌%◌, ◌<◌, ◌≡◌, refl, true, false, ◌&&◌, [], ◌∷◌, some, leb, arith,
}
use skytap.Text.{Str}
use skytap.Text.Utf8.{runes, runes_from, decode_rune}
use skytap.Net.{contains_byte, join_host_port}
use skytap.Net.Decimal.{
  decimal, digits, digits-decimal, IsDigits, decimal_fuel-IsDigits, uint64_mod,
}
use skytap.Net.HostPort.{IsPort, split_host_port-join_host_port}
use skytap.Flags.{must_port, rune_number}

pub decimal-IsDigits : (n : ℕ) → IsDigits (decimal n)
unfolding decimal
decimal-IsDigits n = decimal_fuel-IsDigits (suc n) n

runes-digits : (s : Str) → IsDigits s → runes s ≡ s
unfolding runes runes_from decode_rune
runes-digits [] h = refl
runes-digits (c ∷ s) (d, h) = ground (arith, runes-digits s h)

rune_number-digits :
    (n : ℕ) (s : Str) (m : ℕ)
    → n < uint64_mod
    → IsDigits s
    → digits n s ≡ some m
    → rune_number n s ≡ m
unfolding digits rune_number
rune_number-digits n [] m l h e = ground arith
rune_number-digits n (c ∷ s) m l (d, h) e =
    let digit : (leb 48 c && leb c 57) ≡ true = ground arith in
    let same : (n * 10 + (c + uint64_mod - 48)) % uint64_mod ≡ (n * 10 + (c - 48)) % uint64_mod =
      omega arith in
    rw same
      (rune_number-digits ((n * 10 + (c - 48)) % uint64_mod) s m (omega arith) h (rw digit at e))

-- A byte that is no digit does not stand in a text of digits.
pub contains_byte-digits :
    (b : ℕ) (s : Str) → IsDigits s → (leb 48 b && leb b 57) ≡ false → contains_byte b s ≡ false
unfolding contains_byte
contains_byte-digits b [] h k = refl
contains_byte-digits b (c ∷ s) (d, h) k = ground (arith, contains_byte-digits b s h k)

digits-IsPort : (s : Str) → IsDigits s → IsPort s
digits-IsPort s h = record {
  no_colon = contains_byte-digits b':' s h refl;
  no_left = contains_byte-digits b'[' s h refl;
  no_right = contains_byte-digits b']' s h refl;
}

-- mustPort gives the port of an address that was put together from a host with no brackets and the
-- decimal digits of a number that fits in 64 bits.
must_port-join_host_port :
    (host : Str) (n : ℕ)
    → contains_byte b'[' host ≡ false
    → contains_byte b']' host ≡ false
    → n < uint64_mod
    → must_port (join_host_port host (decimal n)) ≡ n
unfolding must_port
must_port-join_host_port host n l r h =
    let d = decimal-IsDigits n in
    rw
      (
        must_port,
        split_host_port-join_host_port host (decimal n) l r (digits-IsPort (decimal n) d),
        runes-digits (decimal n) d,
      )
      (rune_number-digits 0 (decimal n) n (omega arith) d (digits-decimal n h))
