-- ===== src/Proxy/Socks.antt =====
-- The SOCKS5 conversations that reach the engine.
use skytap.Common.{
  ℕ, ◌+◌, ◌*◌, ◌/◌, ◌%◌, ◌<◌, ◌≡◌, ◌≢◌, refl, sym, ap, ◌∙◌, true, false, [], ◌∷◌, ◌++◌, eqb, length,
  append_assoc, arith,
}
use skytap.Text.{Str}
use skytap.Net.{Addresses, join_host_port}
use skytap.Net.Decimal.{decimal}
use skytap.Ws.{read_full}
use skytap.Ws.RoundTrip.{read_full-append}
use skytap.Proxy.{
  closed, handed, greeting, answer, ipv4_text, found, read_host, finish, socks_request,
  handle_socks5,
}

-- The address that a client asks for (RFC 1928, 5).
pub data Address : Type 0 where
  ipv4 : Str → Address
  name : Str → Address
  ipv6 : Str → Address

unfoldable pub IsAddress : Address → Type 0
IsAddress (ipv4 bs) = length bs ≡ 4
IsAddress (name s) = length s < 256
IsAddress (ipv6 bs) = length bs ≡ 16

unfoldable pub address_bytes : Address → Str
address_bytes (ipv4 bs) = 1 ∷ bs
address_bytes (name s) = 3 ∷ length s ∷ s
address_bytes (ipv6 bs) = 4 ∷ bs

unfoldable pub address_text : Addresses → Address → Str
address_text net (ipv4 bs) = ipv4_text bs
address_text net (name s) = s
address_text net (ipv6 bs) = net.ipv6_text bs

-- What a client sends to ask for an address and a port.
unfoldable pub hello : Str → Str
hello methods = 5 ∷ length methods ∷ methods

unfoldable pub request : ℕ → ℕ → Address → ℕ → Str
unfolding address_bytes
request command reserved a port =
    5 ∷ command ∷ reserved ∷ (address_bytes a ++ (port / 256 ∷ port % 256 ∷ []))

module _ (net : Addresses) where
  finish-port :
      (host : Str) (port : ℕ) (rest : Str)
      → finish (found host (port / 256 ∷ port % 256 ∷ rest))
        ≡ handed (greeting ++ answer 0) host (join_host_port host (decimal port)) rest
  unfolding finish
  finish-port host port rest =
      let same : port / 256 * 256 + port % 256 ≡ port = omega arith in rw same refl

  socks_request-connect :
      (reserved : ℕ) (a : Address) (port : ℕ) (rest : Str)
      → IsAddress a
      → socks_request net (request 1 reserved a port ++ rest)
        ≡ handed
            (greeting ++ answer 0)
            (address_text net a)
            (join_host_port (address_text net a) (decimal port))
            rest
  unfolding socks_request request address_bytes address_text IsAddress read_host
  socks_request-connect reserved (ipv4 bs) port rest h =
      let whole : read_full 4 (bs ++ (port / 256 ∷ port % 256 ∷ rest)) ≡ _ =
        ap (λ n. read_full n (bs ++ (port / 256 ∷ port % 256 ∷ rest))) (sym h)
        ∙ read_full-append bs (port / 256 ∷ port % 256 ∷ rest) in
      rw (append_assoc, whole) (finish-port (ipv4_text bs) port rest)
  socks_request-connect reserved (name s) port rest h =
      rw (append_assoc, read_full-append s (port / 256 ∷ port % 256 ∷ rest))
        (finish-port s port rest)
  socks_request-connect reserved (ipv6 bs) port rest h =
      let whole : read_full 16 (bs ++ (port / 256 ∷ port % 256 ∷ rest)) ≡ _ =
        ap (λ n. read_full n (bs ++ (port / 256 ∷ port % 256 ∷ rest))) (sym h)
        ∙ read_full-append bs (port / 256 ∷ port % 256 ∷ rest) in
      rw (append_assoc, whole) (finish-port (net.ipv6_text bs) port rest)

  handle_socks5-hello :
      (methods s : Str) → handle_socks5 net true (hello methods ++ s) ≡ socks_request net s
  unfolding handle_socks5 hello
  handle_socks5-hello methods s = rw (read_full-append methods s) refl

  -- A client that offers any methods and asks to connect to a name, or to an address of either kind,
  -- is told that it is connected, and the connection goes to the engine with that host, that host and
  -- port as the destination, and exactly the bytes that follow the request.
  pub handle_socks5-connect :
      (methods : Str) (reserved : ℕ) (a : Address) (port : ℕ) (rest : Str)
      → IsAddress a
      → port < 65536
      → handle_socks5 net true (hello methods ++ (request 1 reserved a port ++ rest))
        ≡ handed
            (greeting ++ answer 0)
            (address_text net a)
            (join_host_port (address_text net a) (decimal port))
            rest
  handle_socks5-connect methods reserved a port rest h fits =
      handle_socks5-hello methods (request 1 reserved a port ++ rest)
      ∙ socks_request-connect reserved a port rest h

  -- A client that asks for another command than to connect is answered with code 7, and the
  -- connection is closed.
  handle_socks5-refused :
      (methods : Str) (command reserved : ℕ) (a : Address) (port : ℕ) (rest : Str)
      → command ≢ 1
      → handle_socks5 net true (hello methods ++ (request command reserved a port ++ rest))
        ≡ closed (greeting ++ answer 7)
  unfolding socks_request request address_bytes
  handle_socks5-refused methods command reserved (ipv4 bs) port rest ne =
      let other : eqb command 1 ≡ false = ground arith in
      rw (handle_socks5-hello, socks_request, other) refl
  handle_socks5-refused methods command reserved (name s) port rest ne =
      let other : eqb command 1 ≡ false = ground arith in
      rw (handle_socks5-hello, socks_request, other) refl
  handle_socks5-refused methods command reserved (ipv6 bs) port rest ne =
      let other : eqb command 1 ≡ false = ground arith in
      rw (handle_socks5-hello, socks_request, other) refl
