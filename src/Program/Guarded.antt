-- ===== src/Program/Guarded.antt =====
-- What callers who do not know the token can change.
use skytap.Common.{false, Option, none, some, List, [], ◌∷◌, ◌≡◌, ◌≢◌, refl, ap, ◌∙◌, All, is_empty}
use skytap.Text.{Str}
use skytap.Http.{Request}
use skytap.Script.{Engines}
use skytap.Rules.{JsonObjects}
use skytap.Registry
use skytap.Registry.{Registry}
use skytap.Flow.{FlowView}
use skytap.Ws.{Hub}
use skytap.App.{on_connect, on_request, on_flow}
use skytap.App.Decisions.{state-observe}
use skytap.Server.{Server}
use skytap.Handlers.{Setup}
use skytap.Admin.Access.{credential, serve-Frame}
use skytap.Program.{Program, Input, connection, request, flow, admin, join, greet, leave, step, run}

-- The call is none of the admin interface, or one that presents another text as its token.
unfoldable pub IsStranger : {F : Type 0} → Str → Input F → Type 0
IsStranger token (admin random r) = credential r ≢ token
IsStranger token _ = Unit

-- Each host has the state that it had, and the rules are as they were.
abbrev SameChoices : {F : Type 0} → Server F → Server F → Type 0
SameChoices s s' =
    ((h : Str) → Registry.state s'.registry h ≡ Registry.state s.registry h) × (s'.rules ≡ s.rules)

module _ {F : Type 0} (env : Setup F) (engines : Engines) (json : JsonObjects) where
  open env use {unicode, fields}
  open fields use {Time}

  pub connection-state :
      (reg : Registry F) (host h : Str)
      → Registry.state (on_connect reg host).0 h ≡ Registry.state reg h
  unfolding on_connect
  connection-state reg host h = state-observe reg host h

  pub flow-state :
      (text : F → Option Str) (reg : Registry F) (hub : Option Hub) (f : F) (h : Str)
      → Registry.state (on_flow fields.host text reg hub f).0 h ≡ Registry.state reg h
  unfolding on_flow Registry.add_flow Registry.state
  flow-state text reg none f h = refl
  flow-state text reg (some hub) f h = refl

  on_connect-same :
      (reg reg' : Registry F) (host : Str)
      → Registry.state reg' host ≡ Registry.state reg host
      → (on_connect reg' host).1 ≡ (on_connect reg host).1
  unfolding on_connect
  on_connect-same reg reg' host e =
      rw (state-observe reg' host host, state-observe reg host host, e) refl

  on_request-same :
      (s s' : Server F) (host : Str) (req : Request)
      → SameChoices s s'
      → on_request unicode engines json s'.registry s'.rules host req
        ≡ on_request unicode engines json s.registry s.rules host req
  unfolding on_request
  on_request-same s s' host req (states, rules) = rw (states host, rules) refl

  module _ (text : F → Option Str) (marshal : List (FlowView Time) → Option Str) (token : Str)
      (set : is_empty token ≡ false) where
    step-SameChoices :
        (p : Program F) (i : Input F)
        → IsStranger token i
        → SameChoices p.server (step env engines json text marshal token p i).0.server
    unfolding step IsStranger
    step-SameChoices p (connection host) u = (λ h. connection-state p.server.registry host h, refl)
    step-SameChoices p (request host req) u = (λ h. refl, refl)
    step-SameChoices p (flow f) u = (λ h. flow-state text p.server.registry p.hub f h, refl)
    step-SameChoices p (admin random r) other =
        let (registry, rules) = serve-Frame env token random p.server r set other in
        (λ h. ap (λ (g : Registry F). Registry.state g h) registry, rules)
    step-SameChoices p (join c) u = (λ h. refl, refl)
    step-SameChoices p (greet c reg at) u = (λ h. refl, refl)
    step-SameChoices p (leave c) u = (λ h. refl, refl)

    run-SameChoices :
        (p : Program F) (is : List (Input F))
        → All (IsStranger token) is
        → SameChoices p.server (run env engines json text marshal token p is).server
    unfolding run
    run-SameChoices p [] u = (λ h. refl, refl)
    run-SameChoices p (i ∷ is) (u, us) =
        let (states, rules) = step-SameChoices p i u in
        let (states', rules') =
          run-SameChoices (step env engines json text marshal token p i).0 is us in
        (λ h. states' h ∙ states h, rules' ∙ rules)

    -- With a token that is not empty: after any calls none of which presents it to the admin interface,
    -- each connection and each request is treated as before them.
    pub run-guarded :
        (p : Program F) (is : List (Input F))
        → All (IsStranger token) is
        → (host : Str) (req : Request)
        → let after = (run env engines json text marshal token p is).server in
          ((on_connect after.registry host).1 ≡ (on_connect p.server.registry host).1)
          × (on_request unicode engines json after.registry after.rules host req
              ≡ on_request unicode engines json p.server.registry p.server.rules host req)
    run-guarded p is u host req =
        let same = run-SameChoices p is u in
        (
          on_connect-same _ _ host (same.0 host),
          on_request-same p.server (run env engines json text marshal token p is).server host req
              same,
        )
