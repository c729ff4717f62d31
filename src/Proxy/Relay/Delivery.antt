-- ===== src/Proxy/Relay/Delivery.antt =====
-- What arrives of what is relayed.
use skytap.Common.{
  ◌≡◌, refl, sym, ap, ◌∙◌, true, false, [], ◌++◌, ◌⊎◌, inl, inr, append-nil, append_assoc,
}
use skytap.Text.{Str}
use skytap.Proxy.Relay.{
  Wire, begin, Step, client_sends, client_ends, up_sends, up_ends, fails, forward, forward_ends,
  back, back_ends, Relays, start, later, client_sent, up_sent,
}

moved : (at b rest way : Str) → way ≡ b ++ rest → (at ++ b) ++ rest ≡ at ++ way
moved at b rest way e = append_assoc at b rest ∙ ap (λ x. at ++ x) (sym e)

-- More is sent behind what is on its way.
sent : (at way b total : Str) → at ++ way ≡ total → at ++ (way ++ b) ≡ total ++ b
sent at way b total e = sym (append_assoc at way b) ∙ ap (λ x. x ++ b) e

-- However the two copies and both ends are interleaved: what the destination has got and what is under
-- way to it is the request, what the reader held, and what the client has sent since, in this order; and
-- what the client has got and what is under way to it is what the destination has sent.
pub Relays-in_order :
    (form rest : Str) {t : Wire} (r : Relays (begin form rest) t)
    → (t.at_up ++ t.to_up ≡ form ++ (rest ++ client_sent r))
      × (t.at_client ++ t.to_client ≡ up_sent r)
Relays-in_order form rest start = (ap (λ x. form ++ x) (sym (append-nil rest)), refl)
Relays-in_order form rest (later {t = t} r (client_sends b h)) =
    let (p, q) = Relays-in_order form rest r in
    (
      sent t.at_up t.to_up b (form ++ (rest ++ client_sent r)) p
          ∙ append_assoc form (rest ++ client_sent r) b
          ∙ ap (λ x. form ++ x) (append_assoc rest (client_sent r) b),
      q,
    )
Relays-in_order form rest (later r client_ends) = Relays-in_order form rest r
Relays-in_order form rest (later {t = t} r (up_sends b h)) =
    let (p, q) = Relays-in_order form rest r in (p, sent t.at_client t.to_client b (up_sent r) q)
Relays-in_order form rest (later r up_ends) = Relays-in_order form rest r
Relays-in_order form rest (later r fails) = Relays-in_order form rest r
Relays-in_order form rest (later {t = t} r (forward b left o e)) =
    let (p, q) = Relays-in_order form rest r in (moved t.at_up b left t.to_up e ∙ p, q)
Relays-in_order form rest (later r (forward_ends o h)) = Relays-in_order form rest r
Relays-in_order form rest (later {t = t} r (back b left o c e)) =
    let (p, q) = Relays-in_order form rest r in (p, moved t.at_client b left t.to_client e ∙ q)
Relays-in_order form rest (later r (back_ends c h)) = Relays-in_order form rest r

-- Why a connection has been closed.
record Closings (w : Wire) : Type 0 where
  up : (w.up_open ≡ true) ⊎ (w.client_done ≡ true) ⊎ (w.client_open ≡ false) ⊎ (w.failed ≡ true)
  client :
      (w.client_open ≡ true)
      ⊎ (w.failed ≡ true)
      ⊎ (w.client_done ≡ true)
      ⊎ ((w.up_done ≡ true) × (w.to_client ≡ []))

Step-Closings : {w t : Wire} → Step w t → Closings w → Closings t
Step-Closings (client_sends b h) j = record { up = j.up; client = j.client }
Step-Closings client_ends j = record { up = inr (inl refl); client = inr (inr (inl refl)) }
Step-Closings {w = w} (up_sends b h) j = record {
  up = j.up;
  client = elim j.client [
    | inl o ↦ inl o
    | inr (inl f) ↦ inr (inl f)
    | inr (inr (inl d)) ↦ inr (inr (inl d))
    | inr (inr (inr (u, e))) ↦ absurd (cc (sym u ∙ h))
  ];
}
Step-Closings {w = w} up_ends j = record {
  up = j.up;
  client = elim j.client [
    | inl o ↦ inl o
    | inr (inl f) ↦ inr (inl f)
    | inr (inr (inl d)) ↦ inr (inr (inl d))
    | inr (inr (inr (u, e))) ↦ inr (inr (inr (refl, e)))
  ];
}
Step-Closings fails j = record { up = inr (inr (inr refl)); client = inr (inl refl) }
Step-Closings (forward b left o e) j = record { up = j.up; client = j.client }
Step-Closings {w = w} (forward_ends o h) j = record {
  up = elim h [
    | inl (d, e) ↦ inr (inl d)
    | inr (inl c) ↦ inr (inr (inl c))
    | inr (inr f) ↦ inr (inr (inr f))
  ];
  client = j.client;
}
Step-Closings {w = w} (back b left o c e) j = record { up = j.up; client = inl c }
Step-Closings {w = w} (back_ends c h) j = record {
  up = inr (inr (inl refl));
  client = elim h [
    | inl e ↦ inr (inr (inr e))
    | inr (inl shut) ↦ elim j.up [
      | inl o ↦ absurd (cc (sym o ∙ shut))
      | inr (inl d) ↦ inr (inr (inl d))
      | inr (inr (inl e)) ↦ absurd (cc (sym c ∙ e))
      | inr (inr (inr f)) ↦ inr (inl f)
    ]
    | inr (inr f) ↦ inr (inl f)
  ];
}

Relays-Closings : (form rest : Str) {t : Wire} → Relays (begin form rest) t → Closings t
Relays-Closings form rest start = record { up = inl refl; client = inl refl }
Relays-Closings form rest (later r st) = Step-Closings st (Relays-Closings form rest r)

-- Where the client has been closed, the client has not ended what it sends, and no read or write has
-- failed, the client has got all that the destination has sent.
pub Relays-whole :
    (form rest : Str) {t : Wire} (r : Relays (begin form rest) t)
    → t.client_open ≡ false
    → t.client_done ≡ false
    → t.failed ≡ false
    → t.at_client ≡ up_sent r
Relays-whole form rest {t = t} r closed sending working =
    elim (Relays-Closings form rest r).client [
      | inl o ↦ absurd (cc (sym o ∙ closed))
      | inr (inl f) ↦ absurd (cc (sym f ∙ working))
      | inr (inr (inl d)) ↦ absurd (cc (sym d ∙ sending))
      | inr (inr (inr (u, e))) ↦
          sym (append-nil t.at_client)
          ∙ ap (λ x. t.at_client ++ x) (sym e)
          ∙ (Relays-in_order form rest r).1
    ]

-- Where the destination has ended, nothing is closed and nothing has failed, the two copies can go on to
-- the end by themselves: both connections are closed then, and the client has got what was under way.
Relays-end :
    (w : Wire)
    → w.up_done ≡ true
    → w.up_open ≡ true
    → w.client_open ≡ true
    → (t : Wire) × Relays w t
      × (t.up_open ≡ false)
      × (t.client_open ≡ false)
      × (t.at_client ≡ w.at_client ++ w.to_client)
Relays-end w done up_here client_here = (
  _,
  later
      (later (later start (back w.to_client [] up_here client_here (sym (append-nil w.to_client))))
        (back_ends client_here (inl (done, refl))))
      (forward_ends up_here (inr (inl refl))),
  refl,
  refl,
  refl,
)
