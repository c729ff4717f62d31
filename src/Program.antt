-- ===== src/Program.antt =====
-- The parts that main puts together, as one state that connections, requests, flows, calls of the admin
-- interface and WebSocket clients reach in some order: app.go, admin.go, ws.go.
pub mod Feed
pub mod Guarded
pub mod Restart
pub mod Present
use skytap.Common.{ℕ, Option, none, some, List, [], ◌∷◌}
use skytap.Text.{Str}
use skytap.Http.{Request, Response}
use skytap.Script.{Engines}
use skytap.Rules.{JsonObjects}
use skytap.Registry.{Registry}
use skytap.Flow.{FlowView}
use skytap.Ws.{Hub, add_client, remove_client}
use skytap.Ws.Session.{send_to, snapshot}
use skytap.App.{Action, on_connect, on_request, on_flow}
use skytap.Server.{Server}
use skytap.Handlers.{Setup, AdminRequest, Reply}
use skytap.Admin.{serve}

pub record Program (F : Type 0) : Type 0 where
  pub server : Server F
  pub hub : Option Hub

-- One call: of OnConnect with a host, of OnRequest, of OnFlow, of the admin interface with the bytes
-- that a new rule would draw. handleWS adds its client to the hub, sends the snapshot that it has read
-- from the registry meanwhile (the list of the hosts and the flows of each at moments of their own), and
-- removes the client. Calls of the admin interface come one at a time, each with its save: Concurrent
-- has those that overlap.
pub data Input (F : Type 0) : Type 0 where
  connection : Str → Input F
  request : Str → Request → Input F
  flow : F → Input F
  admin : Str → AdminRequest → Input F
  join : Str → Input F
  greet : Str → Registry F → (ℕ → Registry F) → Input F
  leave : Str → Input F

pub data Output (RpcId Time : Type 0) : Type 0 where
  acted : Action → Output RpcId Time
  decided : Option Response → Request → Output RpcId Time
  replied : Reply RpcId Time → Output RpcId Time
  quiet : Output RpcId Time

module _ {F : Type 0} (env : Setup F) (engines : Engines) (json : JsonObjects) where
  open env use {unicode, fields, decoder}
  open fields use {Time}

  -- The JSON text of a flow for the clients, and that of the first list of flows.
  module _ (text : F → Option Str) (marshal : List (FlowView Time) → Option Str) (token : Str) where
    abbrev with_registry : Program F → Registry F → Program F
    with_registry p reg = record p { server = record p.server { registry = reg } }

    unfoldable pub join_hub : Option Hub → Str → Option Hub
    join_hub none c = none
    join_hub (some hub) c = some (add_client hub c)

    unfoldable pub greet_hub : Registry F → (ℕ → Registry F) → Option Hub → Str → Option Hub
    greet_hub reg at none c = none
    greet_hub reg at (some hub) c = some (send_to hub c (snapshot fields marshal reg at))

    unfoldable pub leave_hub : Option Hub → Str → Option Hub
    leave_hub none c = none
    leave_hub (some hub) c = some (remove_client hub c)

    unfoldable pub step : Program F → Input F → Program F × Output decoder.rpc.RpcId Time
    unfolding join_hub greet_hub leave_hub on_flow
    step p (connection host) =
        let (reg, action) = on_connect p.server.registry host in (with_registry p reg, acted action)
    step p (request host req) =
        let (resp, req') =
          on_request unicode engines json p.server.registry p.server.rules host req in
        (p, decided resp req')
    step p (flow f) =
        let (reg, hub') = on_flow fields.host text p.server.registry p.hub f in
        (record (with_registry p reg) { hub = hub' }, quiet)
    step p (admin random r) =
        let (server', reply) = serve env token random p.server r in
        (record p { server = server' }, replied reply)
    step p (join c) = (record p { hub = join_hub p.hub c }, quiet)
    step p (greet c reg at) = (record p { hub = greet_hub reg at p.hub c }, quiet)
    step p (leave c) = (record p { hub = leave_hub p.hub c }, quiet)

    unfoldable pub run : Program F → List (Input F) → Program F
    unfolding step
    run p [] = p
    run p (i ∷ is) = run (step p i).0 is
