-- ===== src/Proxy/Handed.antt =====
-- The streams whose SOCKS5 conversation reaches the engine.
use mathlib.Core.Path.{subst}
use skytap.Common.{
  ℕ, zero, suc, ◌+◌, ◌*◌, ◌/◌, ◌%◌, ◌<◌, ◌≡◌, ◌↔◌, refl, sym, ap, ◌∙◌, Bool, true, false, not, ◌||◌,
  [], ◌∷◌, ◌++◌, eqb, leb, length, take, drop, append_assoc, arith, Bool-cases, inl, inr, All,
}
use skytap.Text.{Str}
use skytap.Net.{Addresses, join_host_port}
use skytap.Net.Decimal.{decimal}
use skytap.Ws.{Read, got, failed, short, read_full}
use skytap.Proxy.{
  handed, greeting, answer, ipv4_text, HostRead, found, cut, unsupported, host_from, read_name,
  read_host, finish, socks_request, after_methods, handle_socks5,
}
use skytap.Proxy.Socks.{
  Address, ipv4, name, ipv6, IsAddress, address_bytes, address_text, hello, request,
  handle_socks5-connect,
}

abbrev pub IsByte : ℕ → Type 0
IsByte b = b < 256

port_bytes :
    (p q : ℕ) (rest : Str)
    → q < 256
    → p ∷ q ∷ rest ≡ ((p * 256 + q) / 256 ∷ (p * 256 + q) % 256 ∷ []) ++ rest
port_bytes p q rest byte =
    let high : (p * 256 + q) / 256 ≡ p = omega arith in
    let low : (p * 256 + q) % 256 ≡ q = omega arith in rw (high, low) refl

port_fits : (p q : ℕ) → p < 256 → q < 256 → p * 256 + q < 65536
port_fits p q p_byte q_byte = omega arith

take-drop : (n : ℕ) (s : Str) → take n s ++ drop n s ≡ s
take-drop zero s = refl
take-drop (suc n) [] = refl
take-drop (suc n) (b ∷ s) = ap (λ t. b ∷ t) (take-drop n s)

length-take_le : (n : ℕ) (s : Str) → leb n (length s) ≡ true → length (take n s) ≡ n
length-take_le zero s h = refl
length-take_le (suc n) [] h = ground arith
length-take_le (suc n) (b ∷ s) h = let rest = length-take_le n s (ground arith) in ground arith

pair_of : Str × Str → Read (Str × Str) → Str × Str
pair_of d (got x) = x
pair_of d (failed e) = d

-- What io.ReadFull has read.
read_full-got :
    (n : ℕ) (s x rest : Str) → read_full n s ≡ got (x, rest) → (s ≡ x ++ rest) × (length x ≡ n)
unfolding read_full pair_of
read_full-got n s x rest e = elim (Bool-cases (leb n (length s))) [
  | inl whole ↦
      let taken : read_full n s ≡ got (take n s, drop n s) = rw whole refl in
      let first : take n s ≡ x = ap (λ r. (pair_of (x, rest) r).0) (sym taken ∙ e) in
      let second : drop n s ≡ rest = ap (λ r. (pair_of (x, rest) r).1) (sym taken ∙ e) in
      (
        sym (take-drop n s) ∙ ap (λ t. t ++ drop n s) first ∙ ap (λ t. x ++ t) second,
        ap length (sym first) ∙ length-take_le n s whole,
      )
  | inr less ↦
      let short_read : read_full n s ≡ failed short = rw less refl in
      absurd (cc (sym short_read ∙ e))
]

All-right : (P : ℕ → Type 0) (xs ys : Str) → All P (xs ++ ys) → All P ys
All-right P [] ys h = h
All-right P (x ∷ xs) ys (first, h) = All-right P xs ys h

host_from-found :
    (f : Str → Str) (r : Read (Str × Str)) (h rest : Str)
    → host_from f r ≡ found h rest
    → (addr : Str) × (r ≡ got (addr, rest)) × (h ≡ f addr)
host_from-found f (got (addr, s)) h rest e = (addr, cc e, cc e)
host_from-found f (failed x) h rest e = absurd (cc e)

finish-handed :
    (r : HostRead) (out host dst rest : Str)
    → finish r ≡ handed out host dst rest
    → (p : ℕ) × (q : ℕ) × (r ≡ found host (p ∷ q ∷ rest))
      × (out ≡ greeting ++ answer 0)
      × (dst ≡ join_host_port host (decimal (p * 256 + q)))
unfolding finish
finish-handed cut out host dst rest e = absurd (cc e)
finish-handed unsupported out host dst rest e = absurd (cc e)
finish-handed (found h []) out host dst rest e = absurd (cc e)
finish-handed (found h (p ∷ [])) out host dst rest e = absurd (cc e)
finish-handed (found h (p ∷ q ∷ s)) out host dst rest e = (p, q, cc e, cc e, cc e)

read_name-found :
    (s h rest : Str)
    → All IsByte s
    → read_name s ≡ found h rest
    → (length h < 256) × (s ≡ length h ∷ h ++ rest)
read_name-found [] h rest bytes e = absurd (cc e)
read_name-found (l ∷ s) h rest (byte, bytes) e =
    let (addr, read, text) = host_from-found (λ n. n) (read_full l s) h rest e in
    let (split, whole) = read_full-got l s addr rest read in
    let size : length h ≡ l = ap length text ∙ whole in
    (
      subst (λ n. n < 256) (sym size) byte,
      ap (λ n. n ∷ s) (sym size) ∙ ap (λ t. length h ∷ t) (split ∙ ap (λ a. a ++ rest) (sym text)),
    )

read_host-found :
    (net : Addresses) (kind : ℕ) (s h rest : Str)
    → All IsByte s
    → read_host net kind s ≡ found h rest
    → (a : Address) × IsAddress a × (kind ∷ s ≡ address_bytes a ++ rest) × (h ≡ address_text net a)
unfolding read_host IsAddress address_bytes address_text
read_host-found net kind s h rest bytes e = elim (Bool-cases (eqb kind 1)) [
  | inl one ↦
      let same : kind ≡ 1 = ground arith in
      let (addr, read, text) = host_from-found ipv4_text (read_full 4 s) h rest (rw one at e) in
      let (split, four) = read_full-got 4 s addr rest read in
      (ipv4 addr, four, ap (λ k. k ∷ s) same ∙ ap (λ t. 1 ∷ t) split, text)
  | inr not_one ↦ elim (Bool-cases (eqb kind 3)) [
    | inl three ↦
        let same : kind ≡ 3 = ground arith in
        let (fits, split) = read_name-found s h rest bytes (rw (not_one, three) at e) in
        (name h, fits, ap (λ k. k ∷ s) same ∙ ap (λ t. 3 ∷ t) split, refl)
    | inr not_three ↦ elim (Bool-cases (eqb kind 4)) [
      | inl four ↦
          let same : kind ≡ 4 = ground arith in
          let (addr, read, text) =
            host_from-found net.ipv6_text (read_full 16 s) h rest
              (rw (not_one, not_three, four) at e) in
          let (split, sixteen) = read_full-got 16 s addr rest read in
          (ipv6 addr, sixteen, ap (λ k. k ∷ s) same ∙ ap (λ t. 4 ∷ t) split, text)
      | inr other ↦ absurd (cc (rw (not_one, not_three, other) at e))
    ]
  ]
]

-- A request to connect, and what it is answered.
pub record Asks (net : Addresses) (s out host dst rest : Str) : Type 0 where
  pub reserved : ℕ
  pub address : Address
  pub port : ℕ
  pub is_address : IsAddress address
  pub fits : port < 65536
  pub stream : s ≡ request 1 reserved address port ++ rest
  pub output : out ≡ greeting ++ answer 0
  pub text : host ≡ address_text net address
  pub target : dst ≡ join_host_port host (decimal port)

module _ (net : Addresses) where
  asked :
      (reserved kind : ℕ) (s out host dst rest : Str)
      → All IsByte (kind ∷ s)
      → finish (read_host net kind s) ≡ handed out host dst rest
      → Asks net (5 ∷ 1 ∷ reserved ∷ kind ∷ s) out host dst rest
  unfolding request
  asked reserved kind s out host dst rest (byte, bytes) e =
      let (p, q, read, output, target) = finish-handed (read_host net kind s) out host dst rest e in
      let (a, is_address, split, text) =
        read_host-found net kind s host (p ∷ q ∷ rest) bytes read in
      let (p_byte, (q_byte, after)) =
        All-right IsByte (address_bytes a) (p ∷ q ∷ rest)
          (subst (All IsByte) split (byte, bytes)) in
      record {
        reserved = reserved;
        address = a;
        port = p * 256 + q;
        is_address = is_address;
        fits = port_fits p q p_byte q_byte;
        stream =
            ap (λ t. 5 ∷ 1 ∷ reserved ∷ t)
              (split
                ∙ ap (λ t. address_bytes a ++ t) (port_bytes p q rest q_byte)
                ∙ sym (append_assoc (address_bytes a) _ rest));
        output = output;
        text = text;
        target = target;
      }

  socks_request-asks :
      (s out host dst rest : Str)
      → All IsByte s
      → socks_request net s ≡ handed out host dst rest
      → Asks net s out host dst rest
  unfolding socks_request
  socks_request-asks [] out host dst rest bytes e = absurd (cc e)
  socks_request-asks (v ∷ []) out host dst rest bytes e = absurd (cc e)
  socks_request-asks (v ∷ c ∷ []) out host dst rest bytes e = absurd (cc e)
  socks_request-asks (v ∷ c ∷ r ∷ []) out host dst rest bytes e = absurd (cc e)
  socks_request-asks (v ∷ c ∷ r ∷ k ∷ s) out host dst rest (bv, (bc, (br, bytes))) e =
      elim (Bool-cases (not (eqb v 5) || not (eqb c 1))) [
        | inl refused ↦ absurd (cc (rw refused at e))
        | inr connects ↦
            let five : v ≡ 5 = ground arith in
            let one : c ≡ 1 = ground arith in
            subst (λ t. Asks net t out host dst rest)
              (ap (λ x. x ∷ 1 ∷ r ∷ k ∷ s) (sym five) ∙ ap (λ x. v ∷ x ∷ r ∷ k ∷ s) (sym one))
              (asked r k s out host dst rest bytes (rw connects at e))
      ]

  greeted-asks :
      (greeted : Bool) (r : Read (Str × Str)) (out host dst rest : Str)
      → after_methods net greeted r ≡ handed out host dst rest
      → (methods : Str) × (s : Str) × (r ≡ got (methods, s))
        × (greeted ≡ true)
        × (socks_request net s ≡ handed out host dst rest)
  greeted-asks greeted (failed x) out host dst rest e = absurd (cc e)
  greeted-asks true (got (methods, s)) out host dst rest e = (methods, s, refl, refl, e)
  greeted-asks false (got (methods, s)) out host dst rest e = absurd (cc e)

  handed-asks :
      (greeted : Bool) (s out host dst rest : Str)
      → All IsByte s
      → handle_socks5 net greeted s ≡ handed out host dst rest
      → (methods : Str) × (t : Str) × (greeted ≡ true)
        × (s ≡ hello methods ++ t)
        × Asks net t out host dst rest
  unfolding handle_socks5 hello
  handed-asks greeted [] out host dst rest bytes e = absurd (cc e)
  handed-asks greeted (v ∷ []) out host dst rest bytes e = absurd (cc e)
  handed-asks greeted (v ∷ n ∷ s) out host dst rest (bv, (bn, bytes)) e =
      elim (Bool-cases (eqb v 5)) [
        | inl is_five ↦
            let five : v ≡ 5 = ground arith in
            let (methods, t, read, took, asks) =
              greeted-asks greeted (read_full n s) out host dst rest (rw is_five at e) in
            let (split, whole) = read_full-got n s methods t read in
            (
              methods,
              t,
              took,
              ap (λ x. x ∷ n ∷ s) five
                  ∙ ap (λ x. 5 ∷ x ∷ s) (sym whole)
                  ∙ ap (λ x. 5 ∷ length methods ∷ x) split,
              socks_request-asks t out host dst rest
                  (All-right IsByte methods t (subst (All IsByte) split bytes)) asks,
            )
        | inr other ↦ absurd (cc (rw other at e))
      ]

  -- For a stream of bytes: the connection goes to the engine exactly when it takes the greeting and the
  -- stream is an offer of methods and a request to connect to a name or to an address of either kind,
  -- with anything behind it. It is answered with success then, and the engine gets that host, that host
  -- and port as the destination, and what is behind the request.
  pub handle_socks5_iff :
      (greeted : Bool) (s out host dst rest : Str)
      → All IsByte s
      → (handle_socks5 net greeted s ≡ handed out host dst rest) ↔ (
          (methods : Str) × (t : Str) × (greeted ≡ true)
          × (s ≡ hello methods ++ t)
          × Asks net t out host dst rest)
  handle_socks5_iff greeted s out host dst rest bytes = (
    handed-asks greeted s out host dst rest bytes,
    λ (methods, t, took, split, asks).
        ap (λ g. handle_socks5 net g s) took
        ∙ ap (handle_socks5 net true) (split ∙ ap (λ x. hello methods ++ x) asks.stream)
        ∙ handle_socks5-connect net methods asks.reserved asks.address asks.port rest
            asks.is_address asks.fits
        ∙ ap (λ h. handed (greeting ++ answer 0) h (join_host_port h (decimal asks.port)) rest)
            (sym asks.text)
        ∙ ap (λ d. handed (greeting ++ answer 0) host d rest) (sym asks.target)
        ∙ ap (λ o. handed o host dst rest) (sym asks.output),
  )
