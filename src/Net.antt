-- ===== src/Net.antt =====
-- Host and port texts: net.SplitHostPort and net.JoinHostPort, and stripHostPort of proxy.go.
pub mod HostPort
pub mod Decimal
use skytap.Common.{
  ℕ, zero, suc, ◌+◌, ◌*◌, Bool, true, false, not, ◌&&◌, ◌||◌, List, [], ◌∷◌, ◌++◌, Option, none,
  some, eqb, or_zero, if◌then◌else◌,
}
use skytap.Text.{Str, codes}

-- Parsing and printing of addresses, in package net: whether a text is a loopback IP address, and
-- the text of the sixteen bytes of an IPv6 address.
pub record Addresses : Type 0 where
  pub is_loopback_ip : Str → Bool
  pub ipv6_text : Str → Str

unfoldable pub contains_byte : ℕ → Str → Bool
contains_byte b [] = false
contains_byte b (c ∷ s) = eqb c b || contains_byte b s

-- What stands before and behind the first occurrence of a byte.
unfoldable pub cut_first : ℕ → Str → Option (Str × Str)
cut_first b [] = none
cut_first b (c ∷ s) =
    let later = cut_first b s in
    if eqb c b then some ([], s) else elim later [ none ↦ none | some (p, q) ↦ some (c ∷ p, q) ]

-- What stands before and behind its last occurrence.
unfoldable pub cut_last : ℕ → Str → Option (Str × Str)
cut_last b [] = none
cut_last b (c ∷ s) =
    let later = cut_last b s in
    elim later [ none ↦ if eqb c b then some ([], s) else none | some (p, q) ↦ some (c ∷ p, q) ]

abbrev colon : ℕ
colon = b':'

abbrev left : ℕ
left = b'['

abbrev right : ℕ
right = b']'

-- `[host]:port`, from the text behind the left bracket.
split_bracketed : Str → Option (Str × Str)
unfolding contains_byte cut_first
split_bracketed s = elim (cut_first right s) [
  | some (host, c ∷ port) ↦
      if eqb c colon
        && (not (contains_byte colon port)
            && (not (contains_byte left host)
                && (not (contains_byte left port) && not (contains_byte right port))))
      then some (host, port)
      else none
  | _ ↦ none
]

split_plain : Str → Option (Str × Str)
unfolding contains_byte cut_last
split_plain s = elim (cut_last colon s) [
  | none ↦ none
  | some (host, port) ↦
      if contains_byte colon host || (contains_byte left s || contains_byte right s)
      then none
      else some (host, port)
]

unfoldable pub split_host_port : Str → Option (Str × Str)
unfolding split_bracketed split_plain
split_host_port [] = none
split_host_port (c ∷ s) = if eqb c left then split_bracketed s else split_plain (c ∷ s)

unfoldable pub join_host_port : Str → Str → Str
unfolding contains_byte
join_host_port host port =
    if contains_byte colon host
    then left ∷ (host ++ (right ∷ colon ∷ port))
    else host ++ (colon ∷ port)

unfoldable pub strip_host_port : Str → Str
strip_host_port h = elim (split_host_port h) [ none ↦ h | some (host, port) ↦ host ]
