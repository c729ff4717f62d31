-- ===== src/Tests/Proxy.antt =====
-- What the HTTP proxy relays, and the accept loops.
use skytap.Common.{◌≡◌, refl, true, false, [], ◌∷◌, ◌++◌, none, some, inl}
use skytap.Text.{Str, codes}
use skytap.Ws.{read_full}
use skytap.Proxy.{closed, handed, answer, greeting, handle_socks5}
use skytap.Proxy.Accept.{serve_socks5, serve_all, accept_loop}
use skytap.Proxy.Relay.{
  Wire, begin, client_sends, up_sends, up_ends, forward, back, back_ends, Relays, start, later,
  client_sent, up_sent,
}
use skytap.Proxy.Relay.Delivery.{Relays-in_order, Relays-whole}
use skytap.Proxy.Relay.Cut.{Relays-cut}
use skytap.Proxy.Socks.{hello}
use skytap.Proxy.Handed.{IsByte, Asks, handle_socks5_iff}
use skytap.Common.{ℕ, ◌<◌, ltb, All, arith, ◌↔◌, Bool}
use skytap.Tests.Samples.{net}

abbrev form : Str
form = codes "POST / HTTP/1.1"

abbrev body : Str
body = codes "abc"

abbrev more : Str
more = codes "def"

abbrev reply : Str
reply = codes "200"

-- The client sends more, of which a part is relayed, and the destination answers and ends.
abbrev end : Wire
end = record {
  to_up = codes "f";
  at_up = form ++ codes "abcde";
  client_done = false;
  up_open = true;
  to_client = [];
  at_client = reply;
  up_done = true;
  client_open = false;
  failed = false;
}

abbrev exchange : Relays (begin form body) end
exchange =
    later
      (later
        (later
          (later
            (later (later start (client_sends more refl))
              (forward (codes "abcde") (codes "f") refl refl))
            (up_sends reply refl))
          up_ends)
        (back reply [] refl refl refl))
      (back_ends refl (inl (refl, refl)))

Relays-in_order_example :
    (end.at_up ++ end.to_up ≡ form ++ (body ++ client_sent exchange))
    × (end.at_client ++ end.to_client ≡ up_sent exchange)
Relays-in_order_example = Relays-in_order form body exchange

Relays-whole_example : end.at_client ≡ up_sent exchange
Relays-whole_example = Relays-whole form body exchange refl refl refl

Relays-cut_example :
    (t : Wire) × (r : Relays (begin form body) t) × (t.up_open ≡ false)
    × (t.client_open ≡ false)
    × (t.failed ≡ false)
    × (t.at_up ≡ form ++ body)
    × (up_sent r ≡ reply)
    × (t.at_client ≡ [])
Relays-cut_example = Relays-cut form body reply

-- A connection with another version, an error of Accept, and one that ends behind its greeting.
accepted :
    serve_socks5 net true (some (true, 4 ∷ 1 ∷ 0 ∷ []) ∷ none ∷ some (true, 5 ∷ 1 ∷ 0 ∷ []) ∷ [])
    ≡ some (closed [] ∷ closed greeting ∷ [])
unfolding serve_socks5 serve_all accept_loop handle_socks5 read_full
accepted = refl

-- A request to connect to 127.0.0.1 and port 443, with a byte behind it.
abbrev asking : Str
asking = 5 ∷ 1 ∷ 0 ∷ 5 ∷ 1 ∷ 0 ∷ 1 ∷ 127 ∷ 0 ∷ 0 ∷ 1 ∷ 1 ∷ 187 ∷ 22 ∷ []

small : (b : ℕ) → ltb b 256 ≡ true → b < 256
small b h = ground arith

asking-IsBytes : All IsByte asking
asking-IsBytes = (
  small 5 refl,
  (
    small 1 refl,
    (
      small 0 refl,
      (
        small 5 refl,
        (
          small 1 refl,
          (
            small 0 refl,
            (
              small 1 refl,
              (
                small 127 refl,
                (
                  small 0 refl,
                  (
                    small 0 refl,
                    (small 1 refl, (small 1 refl, (small 187 refl, (small 22 refl, tt)))),
                  ),
                ),
              ),
            ),
          ),
        ),
      ),
    ),
  ),
)

handle_socks5_iff_example :
    (handle_socks5 net true asking
      ≡ handed (greeting ++ answer 0) (codes "127.0.0.1") (codes "127.0.0.1:443") (22 ∷ []))
    ↔ ((methods : Str) × (t : Str) × (◌≡◌ {A = Bool} true true)
        × (asking ≡ hello methods ++ t)
        × Asks net t (greeting ++ answer 0) (codes "127.0.0.1") (codes "127.0.0.1:443") (22 ∷ []))
handle_socks5_iff_example =
    handle_socks5_iff net true asking (greeting ++ answer 0) (codes "127.0.0.1")
      (codes "127.0.0.1:443") (22 ∷ []) asking-IsBytes
