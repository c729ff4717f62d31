-- ===== src/Proxy.antt =====
-- proxy.go: what a connection to the SOCKS5 port or to the HTTP proxy port asks for. A SOCKS5
-- connection is the whole stream that the client sends, and what it is answered.
pub mod Socks
pub mod Target
pub mod Handed
pub mod Relay
pub mod Accept
use skytap.Common.{
  ℕ, zero, suc, ◌+◌, ◌*◌, Bool, true, false, not, ◌||◌, List, [], ◌∷◌, ◌++◌, Option, none, some,
  eqb, if◌then◌else◌,
}
use skytap.Text.{Str, codes, Unicode, equal_fold}
use skytap.Net.{Addresses, split_host_port, join_host_port, strip_host_port}
use skytap.Net.Decimal.{decimal}
use skytap.Ws.{Read, got, failed, read_full}

-- How handleSOCKS5 ends, with the bytes that it has written: the connection is closed, or handed to
-- the engine with a host, a destination and the rest of the stream.
pub data Outcome : Type 0 where
  closed : Str → Outcome
  handed : Str → Str → Str → Str → Outcome

abbrev pub greeting : Str
greeting = 5 ∷ 0 ∷ []

-- The answer to a request, with its code.
abbrev pub answer : ℕ → Str
answer code = 5 ∷ code ∷ 0 ∷ 1 ∷ 0 ∷ 0 ∷ 0 ∷ 0 ∷ 0 ∷ 0 ∷ []

-- net.IP.String of four bytes; of sixteen bytes it is the parameter `ipv6_text`.
unfoldable pub ipv4_text : Str → Str
ipv4_text [] = []
ipv4_text (b ∷ []) = decimal b
ipv4_text (b ∷ c ∷ bs) = decimal b ++ b'.' ∷ ipv4_text (c ∷ bs)

-- The switch on the kind of the address: the host and the stream behind it.
pub data HostRead : Type 0 where
  found : Str → Str → HostRead
  cut : HostRead
  unsupported : HostRead

abbrev host_from : (Str → Str) → Read (Str × Str) → HostRead
host_from f (got (addr, rest)) = found (f addr) rest
host_from f (failed e) = cut

abbrev read_name : Str → HostRead
read_name [] = cut
read_name (l ∷ s) = host_from (λ name. name) (read_full l s)

unfoldable pub read_host : Addresses → ℕ → Str → HostRead
unfolding ipv4_text
read_host net kind s =
    if eqb kind 1
    then host_from ipv4_text (read_full 4 s)
    else if eqb kind 3
    then read_name s
    else if eqb kind 4
    then host_from net.ipv6_text (read_full 16 s)
    else unsupported

-- The port, the last answer and eng.Handle. The two bytes of the port have no bit in common.
unfoldable pub finish : HostRead → Outcome
finish cut = closed greeting
finish unsupported = closed (greeting ++ answer 8)
finish (found host []) = closed greeting
finish (found host (p ∷ [])) = closed greeting
finish (found host (p ∷ q ∷ rest)) =
    handed (greeting ++ answer 0) host (join_host_port host (decimal (p * 256 + q))) rest

unfoldable pub socks_request : Addresses → Str → Outcome
unfolding read_host finish
socks_request net (version ∷ command ∷ reserved ∷ kind ∷ s) =
    if not (eqb version 5) || not (eqb command 1)
    then closed (greeting ++ answer 7)
    else finish (read_host net kind s)
socks_request net _ = closed greeting

abbrev after_methods : Addresses → Bool → Read (Str × Str) → Outcome
after_methods net greeted (failed e) = closed []
after_methods net greeted (got (methods, s)) = if greeted then socks_request net s else closed []

-- `greeted`: the connection takes the greeting.
unfoldable pub handle_socks5 : Addresses → Bool → Str → Outcome
unfolding socks_request
handle_socks5 net greeted (version ∷ count ∷ s) =
    if not (eqb version 5) then closed [] else after_methods net greeted (read_full count s)
handle_socks5 net greeted _ = closed []

-- The address to dial for a request's host, with the port where it names none.
unfoldable pub with_port : Str → Str → Str
with_port host port = elim (split_host_port host) [
  | none ↦ join_host_port host port
  | some (h, p) ↦ host
]

-- What handleHTTPProxyConn does with a request: hand the connection to the engine with a host and a
-- destination, or dial the destination itself.
pub data ProxyStep : Type 0 where
  tunnel : Str → Str → ProxyStep
  dial : Str → ProxyStep

unfoldable pub proxy_step : Unicode → Str → Str → ProxyStep
unfolding with_port
proxy_step u method host =
    if equal_fold u method (codes "CONNECT")
    then tunnel (strip_host_port host) (with_port host (codes "443"))
    else dial (with_port host (codes "80"))

-- What http.ReadRequest gives: the method, the host, what is left of the stream, and the bytes of
-- Request.Write, if it succeeds.
pub record ProxyRequest : Type 0 where
  pub method : Str
  pub host : Str
  pub rest : Str
  pub form : Option Str

-- How handleHTTPProxyConn ends: closed after what it has written, handed to the engine as for SOCKS5,
-- or relayed: the destination, what it is sent, and what the client is sent.
pub data HttpOutcome : Type 0 where
  ended : Str → HttpOutcome
  tunnelled : Str → Str → Str → Str → HttpOutcome
  relayed : Str → Str → Str → HttpOutcome

abbrev crlf : Str
crlf = 13 ∷ 10 ∷ []

abbrev pub established : Str
established = codes "HTTP/1.1 200 Connection Established" ++ crlf ++ crlf

-- What http.Error writes to a hijackRW, whose WriteHeader does nothing.
abbrev dial_failed : Str
dial_failed = codes "upstream dial failed" ++ 10 ∷ []

-- `answer` is what the destination sends, `none` if it cannot be dialled.
abbrev relay : ProxyRequest → Str → Option Str → HttpOutcome
relay q dst none = ended dial_failed
relay q dst (some answer) = elim q.form [
  | none ↦ ended []
  | some b ↦ relayed dst (b ++ q.rest) answer
]

abbrev take_step : (Str → Option Str) → ProxyRequest → ProxyStep → HttpOutcome
take_step connect q (tunnel host dst) = tunnelled established host dst q.rest
take_step connect q (dial dst) = relay q dst (connect dst)

-- `read_request` is http.ReadRequest on the stream of the client, `connect` is net.DialTimeout with
-- what the destination sends.
unfoldable pub handle_http :
    Unicode → (Str → Option ProxyRequest) → (Str → Option Str) → Str → HttpOutcome
unfolding proxy_step
handle_http u read_request connect s = elim (read_request s) [
  | none ↦ ended []
  | some q ↦ take_step connect q (proxy_step u q.method q.host)
]
