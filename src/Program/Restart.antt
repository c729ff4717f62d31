-- ===== src/Program/Restart.antt =====
-- What a restart of the program finds.
use skytap.Common.{ℕ, false, Option, List, [], ◌∷◌, ◌≡◌, refl, is_empty}
use skytap.Text.{Str}
use skytap.Script.{Engines}
use skytap.Rules.{JsonObjects}
use skytap.Flow.{FlowView}
use skytap.Config.RoundTrip.{ReadsBack}
use skytap.Server.Files.{IsApart, same-SameFiles}
use skytap.Server.Recovery.{
  IsWritable, locked-IsWritable, IsRecoverable, same-IsRecoverable, locked-IsKept,
  kept-IsRecoverable,
}
use skytap.Handlers.{Setup}
use skytap.Admin.{serve}
use skytap.Admin.Effects.{serve-IsKept}
use skytap.Admin.Complete.{HasComplete, serve-HasComplete}
use skytap.Program.{Program, Input, connection, request, flow, admin, join, greet, leave, step, run}
use skytap.Program.Guarded.{connection-state, flow-state}

module _ {F : Type 0} (env : Setup F) where
  open env use {codec, dir}

  -- The data directory can be written, the rules are complete, and loading the directory gives the
  -- states and the rules that the program has.
  pub record IsDurable (random : ℕ → Str) (p : Program F) : Type 0 where
    pub writable : IsWritable dir p.server.disk
    pub complete : HasComplete p.server
    pub recoverable : IsRecoverable codec random dir p.server

module _ {F : Type 0} (env : Setup F) (engines : Engines) (json : JsonObjects) where
  open env use {unicode, fields, codec, dir, toolkit, system}
  open fields use {Time}

  module _ (text : F → Option Str) (marshal : List (FlowView Time) → Option Str) (token : Str) where
    -- A call of the admin interface draws some bytes, and encoding/json reads back what it writes of
    -- the states and the rules that are there after it.
    unfoldable pub IsSafe : Program F → Input F → Type 0
    IsSafe p (admin random r) =
        let s = (serve env token random p.server r).0 in
        (is_empty random ≡ false) × ReadsBack codec s.registry.states s.rules.rules
    IsSafe p _ = Unit

    unfoldable pub AllSafe : Program F → List (Input F) → Type 0
    unfolding IsSafe
    AllSafe p [] = Unit
    AllSafe p (i ∷ is) = IsSafe p i × AllSafe (step env engines json text marshal token p i).0 is

    module _ (apart : IsApart toolkit system dir) (draws : ℕ → Str) where
      step-IsDurable :
          (p : Program F) (i : Input F)
          → IsSafe p i
          → IsDurable env draws p
          → IsDurable env draws (step env engines json text marshal token p i).0
      unfolding step IsSafe
      step-IsDurable p (connection host) safe h = record {
        writable = h.writable;
        complete = h.complete;
        recoverable =
            same-IsRecoverable codec draws dir p.server _ (same-SameFiles dir p.server.disk) refl
              (λ x. connection-state env engines json p.server.registry host x) h.recoverable;
      }
      step-IsDurable p (request host req) safe h = h
      step-IsDurable p (flow f) safe h = record {
        writable = h.writable;
        complete = h.complete;
        recoverable =
            same-IsRecoverable codec draws dir p.server _ (same-SameFiles dir p.server.disk) refl
              (λ x. flow-state env engines json text p.server.registry p.hub f x) h.recoverable;
      }
      step-IsDurable p (admin random r) (drawn, back) h =
          let s' = (serve env token random p.server r).0 in
          let kept = serve-IsKept env apart token random p.server r in
          let whole = serve-HasComplete env p.server r h.complete random drawn token in
          record {
            writable =
                locked-IsWritable dir p.server.disk s'.disk
                  (locked-IsKept codec draws dir p.server s' kept) h.writable;
            complete = whole;
            recoverable =
                kept-IsRecoverable codec draws dir p.server s' h.writable back whole kept
                  h.recoverable;
          }
      step-IsDurable p (join c) safe h = record {
        writable = h.writable;
        complete = h.complete;
        recoverable = h.recoverable;
      }
      step-IsDurable p (greet c reg at) safe h = record {
        writable = h.writable;
        complete = h.complete;
        recoverable = h.recoverable;
      }
      step-IsDurable p (leave c) safe h = record {
        writable = h.writable;
        complete = h.complete;
        recoverable = h.recoverable;
      }

      -- After any calls, in any order, of which those of the admin interface come one at a time, each with
      -- its save: if the data directory could be loaded with the states and the
      -- rules of the program before them, it can after them. The commands of the system leave its files
      -- alone, each drawing gives bytes, and encoding/json reads back what is saved.
      pub run-IsDurable :
          (p : Program F) (is : List (Input F))
          → AllSafe p is
          → IsDurable env draws p
          → IsDurable env draws (run env engines json text marshal token p is)
      unfolding run AllSafe
      run-IsDurable p [] safe h = h
      run-IsDurable p (i ∷ is) (safe, rest) h =
          run-IsDurable (step env engines json text marshal token p i).0 is rest
            (step-IsDurable p i safe h)
