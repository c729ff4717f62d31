-- ===== src/Program/Feed.antt =====
-- What a WebSocket client receives from the whole program.
use mathlib.Core.Path.{subst}
use skytap.Common.{
  ℕ, ◌≡◌, ◌≢◌, refl, sym, ap, ◌∙◌, ◌<◌, List, [], ◌∷◌, ◌++◌, Option, none, some, All, length,
  append-nil, append_assoc, Option-cases, inl, inr,
}
use skytap.Text.{Str}
use skytap.GoMap.{get}
use skytap.GoMap.Laws.{get-put_self, get-put_ne, get-delete_ne}
use skytap.Script.{Engines}
use skytap.Rules.{JsonObjects}
use skytap.Registry.{Registry}
use skytap.Flow.{FlowView}
use skytap.Ws.{Hub, publish, add_client, remove_client, got, make_limit, write_frame}
use skytap.Ws.Delivery.{frames, receive, receive-frames, publish_all, get-publish_all}
use skytap.Ws.Session.{send_to, snapshot}
use skytap.Ws.Serving.{get-send_to, frames-append}
use skytap.App.{on_flow}
use skytap.Handlers.{Setup}
use skytap.Program.{
  Program, Input, connection, request, flow, admin, join, greet, leave, join_hub, greet_hub,
  leave_hub, step, run,
}

-- The call is about another client, or none.
unfoldable pub IsElsewhere : {F : Type 0} → Str → Input F → Type 0
IsElsewhere c (join d) = d ≢ c
IsElsewhere c (greet d reg at) = d ≢ c
IsElsewhere c (leave d) = d ≢ c
IsElsewhere c _ = Unit

-- The texts of the flows among the calls, in their order; a flow with no JSON text is left out.
unfoldable pub texts_of : {F : Type 0} → (F → Option Str) → List (Input F) → List Str
texts_of text [] = []
texts_of text (flow f ∷ is) = elim (text f) [
  | none ↦ texts_of text is
  | some b ↦ b ∷ texts_of text is
]
texts_of text (_ ∷ is) = texts_of text is

get-send_to_ne :
    (h : Hub) (d c payload : Str) → d ≢ c → get (send_to h d payload).clients c ≡ get h.clients c
unfolding send_to
get-send_to_ne h d c payload ne = elim (Option-cases (get h.clients d)) [
  | inl absent ↦ rw (send_to, absent) refl
  | inr (w, there) ↦ rw (send_to, there) (get-put_ne h.clients d c _ ne)
]

-- The client of the connection `c` has been sent `written`, and nothing else since it joined.
abbrev HasSent : Option Hub → Str → Str → Type 0
HasSent o c written = (hub : Hub) × (o ≡ some hub) × (get hub.clients c ≡ some written)

module _ {F : Type 0} (env : Setup F) (engines : Engines) (json : JsonObjects) where
  open env use {fields}
  open fields use {Time}

  module _ (text : F → Option Str) (marshal : List (FlowView Time) → Option Str) (token : Str) where
    unsent-HasSent :
        (reg : Registry F) (o : Option Hub) (f : F) (c written : Str)
        → text f ≡ none
        → HasSent o c written
        → HasSent (on_flow fields.host text reg o f).1 c written
    unfolding on_flow publish
    unsent-HasSent reg o f c written none_made (hub, e, sent) = (
      hub,
      ap (λ x. (on_flow fields.host text reg x f).1) e ∙ ap (λ t. some (publish hub t)) none_made,
      sent,
    )

    sent-HasSent :
        (reg : Registry F) (o : Option Hub) (f : F) (b c written : Str)
        → text f ≡ some b
        → HasSent o c written
        → HasSent (on_flow fields.host text reg o f).1 c (written ++ frames (b ∷ []))
    unfolding on_flow publish_all
    sent-HasSent reg o f b c written made (hub, e, sent) = (
      publish hub (some b),
      ap (λ x. (on_flow fields.host text reg x f).1) e ∙ ap (λ t. some (publish hub t)) made,
      get-publish_all hub (b ∷ []) c written sent,
    )

    join_hub-HasSent :
        (o : Option Hub) (d c written : Str)
        → d ≢ c
        → HasSent o c written
        → HasSent (join_hub env engines json text marshal token o d) c written
    unfolding join_hub add_client
    join_hub-HasSent o d c written ne (hub, e, sent) = (
      add_client hub d,
      ap (λ x. join_hub env engines json text marshal token x d) e,
      get-put_ne hub.clients d c [] ne ∙ sent,
    )

    greet_hub-HasSent :
        (reg : Registry F) (at : ℕ → Registry F) (o : Option Hub) (d c written : Str)
        → d ≢ c
        → HasSent o c written
        → HasSent (greet_hub env engines json text marshal token reg at o d) c written
    unfolding greet_hub
    greet_hub-HasSent reg at o d c written ne (hub, e, sent) = (
      send_to hub d (snapshot fields marshal reg at),
      ap (λ x. greet_hub env engines json text marshal token reg at x d) e,
      get-send_to_ne hub d c _ ne ∙ sent,
    )

    greeted-HasSent :
        (reg : Registry F) (at : ℕ → Registry F) (o : Option Hub) (c : Str) (bs : List Str)
        → HasSent o c (frames bs)
        → HasSent
            (greet_hub env engines json text marshal token reg at o c)
            c
            (frames (bs ++ snapshot fields marshal reg at ∷ []))
    unfolding greet_hub frames
    greeted-HasSent reg at o c bs (hub, e, sent) =
        let snap = snapshot fields marshal reg at in
        (
          send_to hub c snap,
          ap (λ x. greet_hub env engines json text marshal token reg at x c) e,
          get-send_to hub c snap (frames bs) sent
              ∙ ap some (
                  ap (λ w. frames bs ++ w) (sym (append-nil (write_frame 1 snap)))
                  ∙ sym (frames-append bs (snap ∷ []))),
        )

    leave_hub-HasSent :
        (o : Option Hub) (d c written : Str)
        → d ≢ c
        → HasSent o c written
        → HasSent (leave_hub env engines json text marshal token o d) c written
    unfolding leave_hub remove_client
    leave_hub-HasSent o d c written ne (hub, e, sent) = (
      remove_client hub d,
      ap (λ x. leave_hub env engines json text marshal token x d) e,
      get-delete_ne hub.clients d c ne ∙ sent,
    )

    abbrev step_of : Program F → Input F → Program F
    step_of p i = (step env engines json text marshal token p i).0

    run-HasSent :
        (p : Program F) (is : List (Input F)) (c written : Str)
        → All (IsElsewhere c) is
        → HasSent p.hub c written
        → HasSent
            (run env engines json text marshal token p is).hub
            c
            (written ++ frames (texts_of text is))
    unfolding run step IsElsewhere texts_of frames
    run-HasSent p [] c written u h = subst (HasSent p.hub c) (sym (append-nil written)) h
    run-HasSent p (connection host ∷ is) c written (u, us) h =
        run-HasSent (step_of p (connection host)) is c written us h
    run-HasSent p (request host req ∷ is) c written (u, us) h = run-HasSent p is c written us h
    run-HasSent p (flow f ∷ is) c written (u, us) h = elim (Option-cases (text f)) [
      | inl none_made ↦
          rw (texts_of, none_made)
            (run-HasSent (step_of p (flow f)) is c written us
              (unsent-HasSent p.server.registry p.hub f c written none_made h))
      | inr (b, made) ↦
          let later =
            run-HasSent (step_of p (flow f)) is c (written ++ frames (b ∷ [])) us
              (sent-HasSent p.server.registry p.hub f b c written made h) in
          let ts = texts_of text is in
          rw (texts_of, made)
            (subst (HasSent (run env engines json text marshal token (step_of p (flow f)) is).hub c)
              (append_assoc written (frames (b ∷ [])) (frames ts)
                ∙ ap (λ s. written ++ s) (sym (frames-append (b ∷ []) ts)))
              later)
    ]
    run-HasSent p (admin random r ∷ is) c written (u, us) h =
        run-HasSent (step_of p (admin random r)) is c written us h
    run-HasSent p (join d ∷ is) c written (ne, us) h =
        run-HasSent (step_of p (join d)) is c written us (join_hub-HasSent p.hub d c written ne h)
    run-HasSent p (greet d reg at ∷ is) c written (ne, us) h =
        run-HasSent (step_of p (greet d reg at)) is c written us
          (greet_hub-HasSent reg at p.hub d c written ne h)
    run-HasSent p (leave d ∷ is) c written (ne, us) h =
        run-HasSent (step_of p (leave d)) is c written us (leave_hub-HasSent p.hub d c written ne h)

    run-append :
        (p : Program F) (is js : List (Input F))
        → run env engines json text marshal token p (is ++ js)
          ≡ run env engines json text marshal token
              (run env engines json text marshal token p is)
              js
    unfolding run
    run-append p [] js = refl
    run-append p (i ∷ is) js = run-append (step_of p i) is js

    -- A client of handleWS that joins, is sent the snapshot that was read from the registry, and does not
    -- leave, whatever else happens before the snapshot and behind it: it reads the text of each flow that
    -- is finished before the snapshot, the snapshot, and the text of each flow that is finished from then
    -- on, all of them, in their order, and nothing else, if there is a hub and each text is no longer than
    -- what can be allocated.
    pub run-received :
        (p : Program F) (hub : Hub) (c : Str) (reg : Registry F) (at : ℕ → Registry F)
        (is js : List (Input F))
        → p.hub ≡ some hub
        → All (IsElsewhere c) is
        → All (IsElsewhere c) js
        → let ts = texts_of text is ++ snapshot fields marshal reg at ∷ texts_of text js in
          All (λ b. length b < make_limit) ts
          → (after : Hub) × (new : Str) × ((run env engines json text marshal token p
                (join c ∷ (is ++ greet c reg at ∷ js))).hub
              ≡ some after)
            × (get after.clients c ≡ some new)
            × (receive (length ts) new ≡ got (ts, []))
    unfolding run step join_hub add_client
    run-received p hub c reg at is js e us vs fits =
        let snap = snapshot fields marshal reg at in
        let bs = texts_of text is in
        let ts = bs ++ snap ∷ texts_of text js in
        let joined : HasSent (step_of p (join c)).hub c [] = (
          add_client hub c,
          ap (λ x. join_hub env engines json text marshal token x c) e,
          get-put_self hub.clients c [],
        ) in
        let waiting = run env engines json text marshal token (step_of p (join c)) is in
        let before = run-HasSent (step_of p (join c)) is c [] us joined in
        let (after, there, sent) =
          run-HasSent (step_of waiting (greet c reg at)) js c (frames (bs ++ snap ∷ [])) vs
            (greeted-HasSent reg at waiting.hub c bs before) in
        let whole : frames (bs ++ snap ∷ []) ++ frames (texts_of text js) ≡ frames ts =
          sym (frames-append (bs ++ snap ∷ []) (texts_of text js))
          ∙ ap frames (append_assoc bs (snap ∷ []) (texts_of text js)) in
        (
          after,
          frames ts,
          ap (λ (q : Program F). q.hub) (run-append (step_of p (join c)) is (greet c reg at ∷ js))
              ∙ there,
          sent ∙ ap some whole,
          subst (λ s. receive (length ts) s ≡ got (ts, [])) (append-nil (frames ts))
              (receive-frames ts [] fits),
        )
