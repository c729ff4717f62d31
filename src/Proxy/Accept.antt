-- ===== src/Proxy/Accept.antt =====
-- The accept loops: serveHTTPProxy and serveSOCKS5 of proxy.go, and the end of main in main.go. Each
-- accepted connection has a goroutine of its own, so that what one does is no matter for another.
use skytap.Common.{Bool, List, [], ◌∷◌, Option, none, some, if◌then◌else◌}
use skytap.Text.{Str, Unicode}
use skytap.Net.{Addresses}
use skytap.Proxy.{Outcome, handle_socks5, ProxyRequest, HttpOutcome, handle_http}

module _ {A B : Type 0} (handle : A → B) where
  -- `none` is an error of Accept: the loop goes on.
  unfoldable pub accept_loop : List (Option A) → List B
  accept_loop [] = []
  accept_loop (none ∷ xs) = accept_loop xs
  accept_loop (some c ∷ xs) = handle c ∷ accept_loop xs

  -- net.Listen, and `none` for log.Fatal where it fails.
  unfoldable pub serve_all : Bool → List (Option A) → Option (List B)
  unfolding accept_loop
  serve_all listens xs = if listens then some (accept_loop xs) else none

-- A connection to the SOCKS5 port: does it take the greeting, and what does the client send.
unfoldable pub serve_socks5 : Addresses → Bool → List (Option (Bool × Str)) → Option (List Outcome)
unfolding serve_all
serve_socks5 net = serve_all (λ c. handle_socks5 net c.0 c.1)

-- A connection to the port of the HTTP proxy: what the client sends.
unfoldable pub serve_http_proxy :
    Unicode
    → (Str → Option ProxyRequest)
    → (Str → Option Str)
    → Bool
    → List (Option Str)
    → Option (List HttpOutcome)
unfolding serve_all
serve_http_proxy u read_request connect = serve_all (handle_http u read_request connect)

-- A redirected connection: the engine gets no host, and the destination from before the redirection.
unfoldable pub serve_redirected : Bool → List (Option (Str × Str)) → Option (List Outcome)
unfolding serve_all
serve_redirected = serve_all (λ c. Outcome.handed [] [] c.0 c.1)
