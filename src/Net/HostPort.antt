-- ===== src/Net/HostPort.antt =====
-- Splitting what was joined.
use skytap.Common.{
  ℕ, ◌≡◌, refl, ◌∙◌, false, ◌||◌, [], ◌∷◌, ◌++◌, none, some, arith, Bool-cases, inl, inr,
}
use skytap.Text.{Str}
use skytap.Net.{
  contains_byte, cut_first, cut_last, colon, left, right, split_bracketed, split_plain,
  split_host_port, join_host_port,
}

contains_byte-append :
    (b : ℕ) (s t : Str) → contains_byte b (s ++ t) ≡ (contains_byte b s || contains_byte b t)
unfolding contains_byte
contains_byte-append b [] t = refl
contains_byte-append b (c ∷ s) t = ground (arith, contains_byte-append b s t)

cut_first-append :
    (b : ℕ) (s t : Str) → contains_byte b s ≡ false → cut_first b (s ++ b ∷ t) ≡ some (s, t)
unfolding cut_first contains_byte
cut_first-append b [] t h = ground arith
cut_first-append b (c ∷ s) t h = ground (arith, cut_first-append b s t)

cut_last-none : (b : ℕ) (s : Str) → contains_byte b s ≡ false → cut_last b s ≡ none
unfolding cut_last contains_byte
cut_last-none b [] h = refl
cut_last-none b (c ∷ s) h = ground (arith, cut_last-none b s)

cut_last-append :
    (b : ℕ) (s t : Str) → contains_byte b t ≡ false → cut_last b (s ++ b ∷ t) ≡ some (s, t)
unfolding cut_last
cut_last-append b [] t h = ground (arith, cut_last-none b t)
cut_last-append b (c ∷ s) t h = ground (arith, cut_last-append b s t)

-- A text that can stand for a port or a service name.
pub record IsPort (port : Str) : Type 0 where
  pub no_colon : contains_byte colon port ≡ false
  pub no_left : contains_byte left port ≡ false
  pub no_right : contains_byte right port ≡ false

split_plain-join :
    (host port : Str)
    → contains_byte colon host ≡ false
    → contains_byte left host ≡ false
    → contains_byte right host ≡ false
    → IsPort port
    → split_plain (host ++ colon ∷ port) ≡ some (host, port)
unfolding split_plain contains_byte
split_plain-join host port c l r p =
    rw
      (
        split_plain,
        cut_last-append colon host port p.no_colon,
        c,
        contains_byte-append,
        l,
        p.no_left,
        contains_byte-append,
        r,
        p.no_right,
      )
      refl

split_bracketed-join :
    (host port : Str)
    → contains_byte left host ≡ false
    → contains_byte right host ≡ false
    → IsPort port
    → split_bracketed (host ++ right ∷ colon ∷ port) ≡ some (host, port)
unfolding split_bracketed
split_bracketed-join host port l r p =
    rw
      (
        split_bracketed,
        cut_first-append right host (colon ∷ port) r,
        p.no_colon,
        l,
        p.no_left,
        p.no_right,
      )
      refl

split_host_port-plain :
    (host port : Str)
    → contains_byte left host ≡ false
    → split_host_port (host ++ colon ∷ port) ≡ split_plain (host ++ colon ∷ port)
unfolding split_host_port contains_byte
split_host_port-plain [] port l = refl
split_host_port-plain (c ∷ host) port l = ground arith

-- What JoinHostPort makes of a host with no brackets and a port, SplitHostPort takes apart again, an
-- IPv6 address with its colons too.
pub split_host_port-join_host_port :
    (host port : Str)
    → contains_byte left host ≡ false
    → contains_byte right host ≡ false
    → IsPort port
    → split_host_port (join_host_port host port) ≡ some (host, port)
unfolding split_host_port join_host_port
split_host_port-join_host_port host port l r p = elim (Bool-cases (contains_byte colon host)) [
  | inl colons ↦ rw (join_host_port, colons) (split_bracketed-join host port l r p)
  | inr plain ↦
      rw (join_host_port, plain)
        (split_host_port-plain host port l ∙ split_plain-join host port plain l r p)
]
