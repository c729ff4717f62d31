-- ===== src/Tests/Ws.antt =====
-- ws.go and hub.go
use skytap.Common.{◌≡◌, refl, List, [], ◌∷◌, ◌++◌, none, some, eqb, arith, if◌then◌else◌}
use skytap.Text.{Str, codes, ◌==◌}
use skytap.GoMap.{get}
use skytap.Ws.{frame_header, Hub, got, failed, closed, panic, read_frame, write_frame, make_limit}
use skytap.Ws.RoundTrip.{read_frame-write_frame}
use skytap.Ws.Masking.{client_header, client_frame, read_frame-client_frame, read_frame-panic}
use skytap.Ws.Delivery.{publish_all, receive}
use skytap.Common.{ℕ, true, Option, All, length, ◌<◌}
use skytap.Registry.{Registry, new_registry}
use skytap.Flow.{FlowView}
use skytap.Ws.{Failure}
use skytap.Ws.Session.{is_upgrade, handle_ws, taken, over, handshake, snapshot, session_hub}
use skytap.Ws.Serving.{ClientFrame, IsOpen, IsClose, handle_ws-ends, receive-session_hub}
use skytap.Tests.Samples.{Flow, fields}

abbrev hub : Hub
hub = record { clients = (codes "a", 1 ∷ []) ∷ (codes "b", []) ∷ [] }

abbrev texts : List Str
texts = codes "{}" ∷ codes "[]" ∷ []

read_frame-write_frame_example :
    read_frame (write_frame 1 (codes "hello") ++ codes "more") ≡ got (codes "hello", codes "more")
read_frame-write_frame_example =
    read_frame-write_frame 1 (codes "hello") (codes "more") (omega arith) (omega arith)
      (omega arith)

read_frame-client_frame_example :
    read_frame (client_frame 1 (1 ∷ 2 ∷ 3 ∷ 4 ∷ []) (codes "hi") ++ codes "more")
    ≡ (if eqb 1 8 then failed closed else got (codes "hi", codes "more"))
read_frame-client_frame_example =
    read_frame-client_frame 1 1 2 3 4 (codes "hi") (codes "more") (omega arith)
      (omega arith, (omega arith, (omega arith, (omega arith, tt))))
      (omega arith, (omega arith, tt)) (omega arith)

read_frame-panic_example :
    (read_frame (client_header 1 make_limit ++ (1 ∷ 2 ∷ 3 ∷ 4 ∷ codes "x")) ≡ failed panic)
    × (read_frame (frame_header 1 make_limit ++ codes "x") ≡ failed panic)
read_frame-panic_example =
    read_frame-panic 1 make_limit 1 2 3 4 (codes "x") (omega arith) (omega arith)

-- SHA-1 is the identity, and a list of flows has the text null.
abbrev sha1 : Str → Str
sha1 b = b

abbrev marshal : List (FlowView ℕ) → Option Str
marshal fs = some (codes "null")

abbrev reg : Registry Flow
reg = new_registry

abbrev at : ℕ → Registry Flow
at i = new_registry

asked : is_upgrade (codes "websocket") ≡ true
unfolding is_upgrade ◌==◌
asked = refl

abbrev others : Hub → Hub
others h = publish_all h texts

handle_ws-ends_example :
    let done =
      handle_ws fields marshal sha1 others others
        (codes "websocket")
        (codes "k")
        (taken (1 ∷ 2 ∷ 3 ∷ []))
        reg
        at
        hub
        (codes "c") in
    (e : Failure) × (done.1 ≡ over (handshake sha1 (codes "k")) (some e))
    × (get done.0.clients (codes "c") ≡ none)
handle_ws-ends_example =
    handle_ws-ends fields marshal sha1 others others (codes "websocket") (codes "k") reg at hub
      (codes "c") asked (1 ∷ 2 ∷ 3 ∷ [])

abbrev hello : ClientFrame
hello = record { op = 1; m0 = 1; m1 = 2; m2 = 3; m3 = 4; payload = codes "hi" }

abbrev bye : ClientFrame
bye = record hello { op = 8; payload = [] }

hello-IsOpen : IsOpen hello
hello-IsOpen = (
  (
    omega arith,
    (omega arith, (omega arith, (omega arith, (omega arith, tt)))),
    (omega arith, (omega arith, tt)),
    omega arith,
  ),
  omega arith,
)

bye-IsClose : IsClose bye
bye-IsClose = (
  (omega arith, (omega arith, (omega arith, (omega arith, (omega arith, tt)))), tt, omega arith),
  refl,
)

fitting : All (λ b. length b < make_limit) (texts ++ snapshot fields marshal reg at ∷ texts)
unfolding snapshot
fitting = (omega arith, (omega arith, (omega arith, (omega arith, (omega arith, tt)))))

receive-session_hub_example :
    let all = texts ++ snapshot fields marshal reg at ∷ texts in
    let there = session_hub fields marshal others others reg at hub (codes "c") in
    (new : Str) × (get there.clients (codes "c") ≡ some new)
    × (receive (length all) new ≡ got (all, []))
receive-session_hub_example =
    receive-session_hub fields marshal texts texts reg at hub (codes "c") fitting
