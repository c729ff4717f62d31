-- ===== src/Proxy/Relay/Cut.antt =====
-- What a client loses that ends its side first.
use skytap.Common.{◌≡◌, refl, false, [], ◌++◌, inl, inr, append-nil, sym}
use skytap.Text.{Str}
use skytap.Proxy.Relay.{
  Wire, begin, client_ends, up_sends, forward, forward_ends, back_ends, Relays, start, later,
  up_sent,
}

-- A client that ends its side behind its request: the destination has got the whole request and answers,
-- nothing has failed, and both connections can be closed without a byte of the answer for the client.
pub Relays-cut :
    (form rest answer : Str)
    → (t : Wire) × (r : Relays (begin form rest) t) × (t.up_open ≡ false)
      × (t.client_open ≡ false)
      × (t.failed ≡ false)
      × (t.at_up ≡ form ++ rest)
      × (up_sent r ≡ answer)
      × (t.at_client ≡ [])
Relays-cut form rest answer = (
  _,
  later
      (later
        (later (later (later start client_ends) (forward rest [] refl (sym (append-nil rest))))
          (up_sends answer refl))
        (forward_ends refl (inl (refl, refl))))
      (back_ends refl (inr (inl refl))),
  refl,
  refl,
  refl,
  refl,
  refl,
  refl,
)
