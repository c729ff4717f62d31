-- ===== src/Proxy/Target.antt =====
-- The addresses that the HTTP proxy dials.
use skytap.Common.{◌≡◌, refl, true, false, Option, some, inl, inr, Option-cases}
use skytap.Text.{Str, codes, Unicode, equal_fold}
use skytap.Net.{contains_byte, split_host_port, strip_host_port}
use skytap.Net.HostPort.{IsPort, split_host_port-join_host_port}
use skytap.Proxy.{with_port, ProxyRequest, handle_http, proxy_step, tunnelled, established}

-- The address for a host with no brackets, with or without a port, names the host that the port is
-- stripped from, and some port.
with_port-host :
    (host port : Str)
    → contains_byte b'[' host ≡ false
    → contains_byte b']' host ≡ false
    → IsPort port
    → (p : Str) × (split_host_port (with_port host port) ≡ some (strip_host_port host, p))
unfolding with_port strip_host_port
with_port-host host port l r ok = elim (Option-cases (split_host_port host)) [
  | inl bare ↦ (
    port,
    rw (with_port, strip_host_port, bare) (split_host_port-join_host_port host port l r ok),
  )
  | inr ((h, p), e) ↦ (p, rw (with_port, strip_host_port, e) e)
]

https-IsPort : IsPort (codes "443")
unfolding contains_byte
https-IsPort = record { no_colon = refl; no_left = refl; no_right = refl }

-- A client of the HTTP proxy that asks for CONNECT to a host with no brackets is told that the connection
-- stands, whether or not the host can be reached, and the engine gets that host, a destination that
-- names it with some port, and exactly the bytes behind the request.
pub handle_http-connect :
    (u : Unicode) (read_request : Str → Option ProxyRequest) (connect : Str → Option Str) (s : Str)
    (q : ProxyRequest)
    → read_request s ≡ some q
    → equal_fold u q.method (codes "CONNECT") ≡ true
    → contains_byte b'[' q.host ≡ false
    → contains_byte b']' q.host ≡ false
    → (dst : Str) × (p : Str) × (handle_http u read_request connect s
        ≡ tunnelled established (strip_host_port q.host) dst q.rest)
      × (split_host_port dst ≡ some (strip_host_port q.host, p))
unfolding handle_http proxy_step
handle_http-connect u read_request connect s q read method l r =
    let (p, named) = with_port-host q.host (codes "443") l r https-IsPort in
    (with_port q.host (codes "443"), p, rw (handle_http, read, proxy_step, method) refl, named)
