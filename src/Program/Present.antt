-- ===== src/Program/Present.antt =====
-- state.json is not lost: it is there after any calls, if it was before them.
use skytap.Common.{◌≡◌, true, List, [], ◌∷◌, Option}
use skytap.Text.{Str}
use skytap.Rules.{JsonObjects}
use skytap.Script.{Engines}
use skytap.Flow.{FlowView}
use skytap.Config.{persist_exists}
use skytap.Server.Files.{IsApart}
use skytap.Server.Present.{persist_exists-IsKept}
use skytap.Handlers.{Setup}
use skytap.Admin.{serve}
use skytap.Admin.Effects.{serve-IsKept}
use skytap.Program.{Program, Input, connection, request, flow, admin, join, greet, leave, step, run}

module _ {F : Type 0} (env : Setup F) (engines : Engines) (json : JsonObjects) where
  open env use {codec, fields, dir, toolkit, system}
  open fields use {Time}

  module _ (text : F → Option Str) (marshal : List (FlowView Time) → Option Str) (token : Str)
      (apart : IsApart toolkit system dir) where
    step-persist_exists :
        (p : Program F) (i : Input F)
        → persist_exists dir p.server.disk ≡ true
        → persist_exists dir (step env engines json text marshal token p i).0.server.disk ≡ true
    unfolding step
    step-persist_exists p (connection host) h = h
    step-persist_exists p (request host req) h = h
    step-persist_exists p (flow f) h = h
    step-persist_exists p (admin random r) h =
        persist_exists-IsKept dir codec p.server (serve env token random p.server r).0
          (serve-IsKept env apart token random p.server r) h
    step-persist_exists p (join c) h = h
    step-persist_exists p (greet c reg at) h = h
    step-persist_exists p (leave c) h = h

    pub run-persist_exists :
        (p : Program F) (is : List (Input F))
        → persist_exists dir p.server.disk ≡ true
        → persist_exists dir (run env engines json text marshal token p is).server.disk ≡ true
    unfolding run
    run-persist_exists p [] h = h
    run-persist_exists p (i ∷ is) h =
        run-persist_exists (step env engines json text marshal token p i).0 is
          (step-persist_exists p i h)
