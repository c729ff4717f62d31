-- ===== src/Ws/Serving.antt =====
-- What handleWS does with a connection.
use mathlib.Core.Path.{subst}
use skytap.Common.{
  ℕ, zero, suc, ◌<◌, ◌≡◌, ◌≢◌, refl, sym, ap, ◌∙◌, arith, true, false, List, [], ◌∷◌, ◌++◌, Option,
  none, some, length, All, if◌then◌else◌, eqb, append_assoc, append-nil,
}
use skytap.Text.{Str}
use skytap.GoMap.{get}
use skytap.GoMap.Laws.{get-put_self, get-delete_self}
use skytap.Registry.{Registry}
use skytap.Flow.{FlowFields, FlowView}
use skytap.Ws.{
  Failure, Hub, got, failed, closed, read_frame, write_frame, make_limit, add_client, remove_client,
  send,
}
use skytap.Ws.Masking.{IsBytes, client_frame, read_frame-client_frame}
use skytap.Ws.Delivery.{publish_all, frames, receive, get-publish_all, receive-frames}
use skytap.Ws.Session.{
  read_loop, is_upgrade, handshake, taken, over, send_to, snapshot, session_hub, handle_ws,
}
use skytap.Ws.Ending.{read_loop-ends, read_frame-shrinks}

-- A frame that a client may send: its opcode, the four bytes of its mask, its payload.
pub record ClientFrame : Type 0 where
  pub op : ℕ
  pub m0 : ℕ
  pub m1 : ℕ
  pub m2 : ℕ
  pub m3 : ℕ
  pub payload : Str

abbrev IsSendable : ClientFrame → Type 0
IsSendable f =
    (f.op < 16)
    × IsBytes (f.m0 ∷ f.m1 ∷ f.m2 ∷ f.m3 ∷ [])
    × IsBytes f.payload
    × (length f.payload < make_limit)

unfoldable pub frame_bytes : ClientFrame → Str
frame_bytes f = client_frame f.op (f.m0 ∷ f.m1 ∷ f.m2 ∷ f.m3 ∷ []) f.payload

-- The frames, one behind the other, with `rest` behind them.
unfoldable pub stream : List ClientFrame → Str → Str
stream [] rest = rest
stream (f ∷ fs) rest = frame_bytes f ++ stream fs rest

read_frame-frame_bytes :
    (f : ClientFrame) (rest : Str)
    → IsSendable f
    → read_frame (frame_bytes f ++ rest)
      ≡ (if eqb f.op 8 then failed closed else got (f.payload, rest))
unfolding frame_bytes
read_frame-frame_bytes f rest (op, mask, bytes, fits) =
    read_frame-client_frame f.op f.m0 f.m1 f.m2 f.m3 f.payload rest op mask bytes fits

abbrev pub IsOpen : ClientFrame → Type 0
IsOpen f = IsSendable f × (f.op ≢ 8)

abbrev pub IsClose : ClientFrame → Type 0
IsClose f = IsSendable f × (f.op ≡ 8)

-- A client sends any frames but close frames, and then a close frame: the loop ends there, whatever
-- stands behind it.
read_loop-stream :
    (fuel : ℕ) (fs : List ClientFrame) (last : ClientFrame) (rest : Str)
    → All IsOpen fs
    → IsClose last
    → length (stream fs (frame_bytes last ++ rest)) < fuel
    → read_loop fuel (stream fs (frame_bytes last ++ rest)) ≡ some closed
unfolding read_loop stream
read_loop-stream zero fs last rest h end' fuel_left = absurd (omega arith)
read_loop-stream (suc fuel) [] last rest h (sendable, op) fuel_left =
    let is_close : eqb last.op 8 ≡ true = ground arith in
    rw (stream, read_loop, read_frame-frame_bytes last rest sendable, is_close) refl
read_loop-stream (suc fuel) (f ∷ fs) last rest ((sendable, op), h) end' fuel_left =
    let open_frame : eqb f.op 8 ≡ false = ground arith in
    let tail = stream fs (frame_bytes last ++ rest) in
    let read : read_frame (frame_bytes f ++ tail) ≡ got (f.payload, tail) =
      read_frame-frame_bytes f tail sendable ∙ rw open_frame refl in
    let shorter = read_frame-shrinks (frame_bytes f ++ tail) f.payload tail read in
    rw (stream, read_loop, read) (read_loop-stream fuel fs last rest h end' (omega arith))

pub get-send_to :
    (h : Hub) (c payload written : Str)
    → get h.clients c ≡ some written
    → get (send_to h c payload).clients c ≡ some (written ++ write_frame 1 payload)
unfolding send_to send
get-send_to h c payload written e = rw (send_to, e) (get-put_self h.clients c _)

pub frames-append : (bs cs : List Str) → frames (bs ++ cs) ≡ frames bs ++ frames cs
unfolding frames
frames-append [] cs = refl
frames-append (b ∷ bs) cs =
    ap (λ s. write_frame 1 b ++ s) (frames-append bs cs)
    ∙ sym (append_assoc (write_frame 1 b) (frames bs) (frames cs))

module _ {F : Type 0} (fields : FlowFields F) where
  open fields use {Time}

  module _ (marshal : List (FlowView Time) → Option Str) where
    module _ (sha1 : Str → Str) (between during : Hub → Hub) (upgrade key : Str) (reg : Registry F)
        (at : ℕ → Registry F) (hub : Hub) (c : Str) (asked : is_upgrade upgrade ≡ true) where
      handle_ws-taken :
          (s : Str)
          → handle_ws fields marshal sha1 between during upgrade key (taken s) reg at hub c ≡ (
            remove_client (session_hub fields marshal between during reg at hub c) c,
            over (handshake sha1 key) (read_loop (suc (length s)) s),
          )
      unfolding handle_ws
      handle_ws-taken s = rw (handle_ws, asked) refl

      -- For an upgrade on a connection that can be taken over: whatever bytes the client sends and
      -- whatever the other goroutines do to the hub, the handler ends, and the client is then no
      -- client of the hub.
      pub handle_ws-ends :
          (s : Str)
          → let done =
              handle_ws fields marshal sha1 between during upgrade key (taken s) reg at hub c in
            (e : Failure) × (done.1 ≡ over (handshake sha1 key) (some e))
            × (get done.0.clients c ≡ none)
      unfolding remove_client
      handle_ws-ends s =
          let (e, ends) = read_loop-ends (suc (length s)) s (omega arith) in
          rw (handle_ws-taken s, ends)
            (
              e,
              refl,
              get-delete_self (session_hub fields marshal between during reg at hub c).clients c,
            )

      -- For an upgrade on a connection that can be taken over: a client that sends frames other than
      -- close frames, and then a close frame, keeps the connection until that frame.
      handle_ws-close :
          (fs : List ClientFrame) (last : ClientFrame) (rest : Str)
          → All IsOpen fs
          → IsClose last
          → (handle_ws fields marshal sha1 between during upgrade key
              (taken (stream fs (frame_bytes last ++ rest)))
              reg
              at
              hub
              c).1
            ≡ over (handshake sha1 key) (some closed)
      handle_ws-close fs last rest h end' =
          let s = stream fs (frame_bytes last ++ rest) in
          ap (λ (x : Hub × _). x.1) (handle_ws-taken s)
          ∙ ap (over (handshake sha1 key))
              (read_loop-stream (suc (length s)) fs last rest h end' (omega arith))

    -- What is published between joining and the snapshot, the snapshot, and what is published from then
    -- on: a client reads exactly these texts, in this order, until it leaves.
    pub receive-session_hub :
        (before after : List Str) (reg : Registry F) (at : ℕ → Registry F) (hub : Hub) (c : Str)
        → let all = before ++ snapshot fields marshal reg at ∷ after in
          All (λ b. length b < make_limit) all
          → let there =
              session_hub fields marshal
                (λ h. publish_all h before)
                (λ h. publish_all h after)
                reg
                at
                hub
                c in
            (new : Str) × (get there.clients c ≡ some new)
            × (receive (length all) new ≡ got (all, []))
    unfolding session_hub add_client frames
    receive-session_hub before after reg at hub c fits =
        let snap = snapshot fields marshal reg at in
        let all = before ++ snap ∷ after in
        let joined = publish_all (add_client hub c) before in
        let first : get joined.clients c ≡ some (frames before) =
          get-publish_all (add_client hub c) before c [] (get-put_self hub.clients c []) in
        let second = get-send_to joined c snap (frames before) first in
        let third = get-publish_all (send_to joined c snap) after c _ second in
        let whole : (frames before ++ write_frame 1 snap) ++ frames after ≡ frames all =
          append_assoc (frames before) (write_frame 1 snap) (frames after)
          ∙ sym (frames-append before (snap ∷ after)) in
        (
          frames all,
          third ∙ ap some whole,
          subst (λ s. receive (length all) s ≡ got (all, [])) (append-nil (frames all))
              (receive-frames all [] fits),
        )
