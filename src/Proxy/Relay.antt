-- ===== src/Proxy/Relay.antt =====
-- The end of handleHTTPProxyConn of proxy.go for a request that is no CONNECT: one goroutine copies what
-- the client sends to the destination, and closes the destination behind it; the handler copies the
-- answer to the client, and closes the client. The two and both ends take steps in any order.
pub mod Delivery
pub mod Cut
use skytap.Common.{Bool, true, false, List, [], ◌++◌, ◌≡◌, ◌⊎◌}
use skytap.Text.{Str}

-- Both connections, as bytes under way and bytes that have arrived.
pub record Wire : Type 0 where
  pub to_up : Str
  pub at_up : Str
  pub client_done : Bool  -- the client sends nothing more
  pub up_open : Bool  -- up has not been closed
  pub to_client : Str
  pub at_client : Str
  pub up_done : Bool
  pub client_open : Bool
  pub failed : Bool  -- a read or a write of one of them fails

-- Behind Request.Write, with what is left in the reader.
abbrev pub begin : Str → Str → Wire
begin form rest = record {
  to_up = rest;
  at_up = form;
  client_done = false;
  up_open = true;
  to_client = [];
  at_client = [];
  up_done = false;
  client_open = true;
  failed = false;
}

-- io.Copy(up, br) returns: at the end of what the client sends, or where it cannot be read or written on.
abbrev pub ForwardEnds : Wire → Type 0
ForwardEnds w =
    ((w.client_done ≡ true) × (w.to_up ≡ [])) ⊎ (w.client_open ≡ false) ⊎ (w.failed ≡ true)

-- io.Copy(c, up) returns.
abbrev pub BackEnds : Wire → Type 0
BackEnds w = ((w.up_done ≡ true) × (w.to_client ≡ [])) ⊎ (w.up_open ≡ false) ⊎ (w.failed ≡ true)

pub data Step (w : Wire) : Wire → Type 0 where
  client_sends : (b : Str) → w.client_done ≡ false → Step w (record w { to_up = w.to_up ++ b })
  client_ends : Step w (record w { client_done = true })
  up_sends : (b : Str) → w.up_done ≡ false → Step w (record w { to_client = w.to_client ++ b })
  up_ends : Step w (record w { up_done = true })
  fails : Step w (record w { failed = true })
  forward :
      (b rest : Str)
      → w.up_open ≡ true
      → w.to_up ≡ b ++ rest
      → Step w (record w { to_up = rest; at_up = w.at_up ++ b })
  forward_ends : w.up_open ≡ true → ForwardEnds w → Step w (record w { up_open = false })
  back :
      (b rest : Str)
      → w.up_open ≡ true
      → w.client_open ≡ true
      → w.to_client ≡ b ++ rest
      → Step w (record w { to_client = rest; at_client = w.at_client ++ b })
  back_ends : w.client_open ≡ true → BackEnds w → Step w (record w { client_open = false })

pub data Relays (w : Wire) : Wire → Type 0 where
  start : Relays w w
  later : {t u : Wire} → Relays w t → Step t u → Relays w u

-- What the two ends have sent meanwhile.
abbrev pub client_sent : {w t : Wire} → Relays w t → Str
client_sent start = []
client_sent (later r (client_sends b h)) = client_sent r ++ b
client_sent (later r _) = client_sent r

abbrev pub up_sent : {w t : Wire} → Relays w t → Str
up_sent start = []
up_sent (later r (up_sends b h)) = up_sent r ++ b
up_sent (later r _) = up_sent r
