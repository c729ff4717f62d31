-- ===== src/Ws/Delivery.antt =====
-- Every client of the hub receives what is published while it is connected, in order.
use mathlib.Core.Path.{subst}
use skytap.Common.{
  ℕ, zero, suc, ◌<◌, ◌≡◌, refl, ap, ◌∙◌, arith, List, [], ◌∷◌, ◌++◌, length, none, some,
  append_assoc, append-nil, All,
}
use skytap.Text.{Str}
use skytap.GoMap.{GoMap, get}
use skytap.GoMap.Laws.{get-put_self, get-delete_self}
use skytap.Ws.{
  write_frame, Read, got, ◌>>=◌, read_frame, make_limit, Hub, publish, add_client, remove_client,
  send_all, send,
}
use skytap.Ws.RoundTrip.{read_frame-write_frame}

-- Publish of one text after another.
unfoldable pub publish_all : Hub → List Str → Hub
publish_all h [] = h
publish_all h (b ∷ bs) = publish_all (publish h (some b)) bs

-- The bytes of text frames with these payloads.
unfoldable pub frames : List Str → Str
frames [] = []
frames (b ∷ bs) = write_frame 1 b ++ frames bs

-- A client's loop over `n` frames.
unfoldable pub receive : ℕ → Str → Read (List Str × Str)
receive zero s = got ([], s)
receive (suc n) s = do
  (payload, s') ← read_frame s
  (payloads, rest) ← receive n s'
  got (payload ∷ payloads, rest)

get-send_all :
    (b : Str) (cs : GoMap Str) (c written : Str)
    → get cs c ≡ some written
    → get (send_all b cs) c ≡ some (written ++ write_frame 1 b)
unfolding get send_all send
get-send_all b [] c written e = absurd (cc)
get-send_all b ((j, w) ∷ cs) c written e = ground (arith, get-send_all b cs c written)

pub get-publish_all :
    (h : Hub) (bs : List Str) (c written : Str)
    → get h.clients c ≡ some written
    → get (publish_all h bs).clients c ≡ some (written ++ frames bs)
unfolding publish_all publish frames
get-publish_all h [] c written e = rw append-nil e
get-publish_all h (b ∷ bs) c written e =
    get-publish_all (publish h (some b)) bs c (written ++ write_frame 1 b)
      (get-send_all b h.clients c written e)
    ∙ ap some (append_assoc written (write_frame 1 b) (frames bs))

pub receive-frames :
    (bs : List Str) (rest : Str)
    → All (λ b. length b < make_limit) bs
    → receive (length bs) (frames bs ++ rest) ≡ got (bs, rest)
unfolding receive frames
receive-frames [] rest h = refl
receive-frames (b ∷ bs) rest (fits, h) =
    rw
      (
        append_assoc,
        read_frame-write_frame 1 b (frames bs ++ rest) (omega arith) (omega arith) fits,
        receive-frames bs rest h,
      )
      refl

-- What is published to a hub reaches each client: behind the bytes that were written to it before
-- stand frames whose payloads are the published texts, all of them, in their order.
receive-publish_all :
    (h : Hub) (bs : List Str) (c written : Str)
    → All (λ b. length b < make_limit) bs
    → get h.clients c ≡ some written
    → (new : Str) × (get (publish_all h bs).clients c ≡ some (written ++ new))
      × (receive (length bs) new ≡ got (bs, []))
receive-publish_all h bs c written fits e = (
  frames bs,
  get-publish_all h bs c written e,
  subst (λ s. receive (length bs) s ≡ got (bs, [])) (append-nil (frames bs))
      (receive-frames bs [] fits),
)

get-send_all_of_absent :
    (b : Str) (cs : GoMap Str) (c : Str) → get cs c ≡ none → get (send_all b cs) c ≡ none
unfolding get send_all
get-send_all_of_absent b [] c e = refl
get-send_all_of_absent b ((j, w) ∷ cs) c e = ground (arith, get-send_all_of_absent b cs c)

get-publish_all_of_absent :
    (h : Hub) (bs : List Str) (c : Str)
    → get h.clients c ≡ none
    → get (publish_all h bs).clients c ≡ none
unfolding publish_all publish
get-publish_all_of_absent h [] c e = e
get-publish_all_of_absent h (b ∷ bs) c e =
    get-publish_all_of_absent (publish h (some b)) bs c (get-send_all_of_absent b h.clients c e)

-- A client that joins receives exactly the texts that are published from then on, in their order; once
-- it has been removed it is no client of the hub, whatever is published later.
receive-add_client :
    (h : Hub) (bs cs : List Str) (c : Str)
    → All (λ b. length b < make_limit) bs
    → (new : Str) × (get (publish_all (add_client h c) bs).clients c ≡ some new)
      × (receive (length bs) new ≡ got (bs, []))
      × (get (publish_all (remove_client (publish_all (add_client h c) bs) c) cs).clients c ≡ none)
unfolding add_client remove_client
receive-add_client h bs cs c fits =
    let joined = add_client h c in
    let left = publish_all joined bs in
    (
      frames bs,
      get-publish_all joined bs c [] (get-put_self h.clients c []),
      subst (λ s. receive (length bs) s ≡ got (bs, [])) (append-nil (frames bs))
          (receive-frames bs [] fits),
      get-publish_all_of_absent (remove_client left c) cs c (get-delete_self left.clients c),
    )
