-- ===== src/Ws/Session.antt =====
-- ws.go: handleWS, from the headers of the request to the end of the connection.
use skytap.Common.{
  ℕ, zero, suc, Bool, not, ◌||◌, List, [], ◌∷◌, ◌++◌, Option, none, some, or_zero, length,
  if◌then◌else◌,
}
use skytap.Text.{Str, codes, ◌==◌}
use skytap.GoMap
use skytap.Registry
use skytap.Registry.{Registry, DomainInfo}
use skytap.Flow.{FlowFields, FlowView, flow_views}
use skytap.Flow.Base64.{encode}
use skytap.Ws.{Hub, add_client, remove_client, send, Failure, got, failed, read_frame}

abbrev ws_guid : Str
ws_guid = codes "258EAFA5-E914-47DA-95CA-C5AB0DC85B11"

-- crypto/sha1 is a parameter.
unfoldable ws_accept : (Str → Str) → Str → Str
ws_accept sha1 key = encode (sha1 (key ++ ws_guid))

abbrev crlf : Str
crlf = 13 ∷ 10 ∷ []

unfoldable pub handshake : (Str → Str) → Str → Str
unfolding ws_accept
handshake sha1 key =
    codes "HTTP/1.1 101 Switching Protocols"
    ++ crlf
    ++ codes "Upgrade: websocket"
    ++ crlf
    ++ codes "Connection: Upgrade"
    ++ crlf
    ++ codes "Sec-WebSocket-Accept: "
    ++ ws_accept sha1 key
    ++ crlf
    ++ crlf

unfoldable pub is_upgrade : Str → Bool
is_upgrade header = header == codes "websocket" || header == codes "WebSocket"

-- What the writer of the response is: no http.Hijacker, one that fails, or one that gives the
-- connection, with all the bytes that the client sends until it ends its stream.
pub data Hijack : Type 0 where
  no_hijacker : Hijack
  fails : Hijack
  taken : Str → Hijack

-- wc.send, for a client of the hub: nothing else is done with the client's bytes.
unfoldable pub send_to : Hub → Str → Str → Hub
unfolding send
send_to h c payload = elim (GoMap.get h.clients c) [
  | none ↦ h
  | some written ↦ record { clients = GoMap.put h.clients c (send payload written) }
]

-- The loop over the frames of the client, up to `fuel` of them: how it ends.
unfoldable pub read_loop : ℕ → Str → Option Failure
read_loop zero s = none
read_loop (suc fuel) s = elim (read_frame s) [
  | got (payload, rest) ↦ read_loop fuel rest
  | failed e ↦ some e
]

-- How the handler ends: with an error answer, with none, or with the loop, after the handshake.
pub data Outcome : Type 0 where
  answered : ℕ → Str → Outcome
  silent : Outcome
  over : Str → Option Failure → Outcome

module _ {F : Type 0} (fields : FlowFields F) where
  open fields use {Time}

  -- The flows of the hosts, in the order of the list of the domains. The registry is read anew for each
  -- host, with its mutex free in between: `at` is what it is at each of these reads.
  unfoldable all_views : (ℕ → Registry F) → ℕ → List DomainInfo → List (FlowView Time)
  unfolding flow_views
  all_views at i [] = []
  all_views at i (d ∷ ds) =
      flow_views fields (Registry.flows_of (at i) d.host) ++ all_views at (suc i) ds

  module _ (marshal : List (FlowView Time) → Option Str) where
    -- What is sent first: nothing but an empty text where encoding/json fails. `reg` is the registry when
    -- Domains lists it.
    unfoldable pub snapshot : Registry F → (ℕ → Registry F) → Str
    unfolding all_views
    snapshot reg at = or_zero [] (marshal (all_views at 0 (Registry.domains reg)))

    -- The hub before the client leaves it. `between` and `during` are what the other goroutines do to
    -- the hub before the snapshot is sent, and from then on.
    unfoldable pub session_hub :
        (Hub → Hub) → (Hub → Hub) → Registry F → (ℕ → Registry F) → Hub → Str → Hub
    unfolding snapshot send_to
    session_hub between during reg at hub c =
        during (send_to (between (add_client hub c)) c (snapshot reg at))

    -- `upgrade` and `key` are the two headers, `c` is the new connection.
    unfoldable pub handle_ws :
        (Str → Str)
        → (Hub → Hub)
        → (Hub → Hub)
        → Str
        → Str
        → Hijack
        → Registry F
        → (ℕ → Registry F)
        → Hub
        → Str
        → Hub × Outcome
    unfolding session_hub read_loop handshake is_upgrade
    handle_ws sha1 between during upgrade key hijack reg at hub c =
        if not (is_upgrade upgrade)
        then (hub, answered 400 (codes "upgrade required"))
        else elim hijack [
          | no_hijacker ↦ (hub, answered 500 (codes "no hijack"))
          | fails ↦ (hub, silent)
          | taken s ↦ (
            remove_client (session_hub between during reg at hub c) c,
            over (handshake sha1 key) (read_loop (suc (length s)) s),
          )
        ]
