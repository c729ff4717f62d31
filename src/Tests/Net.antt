-- ===== src/Tests/Net.antt =====
-- Host and port texts, and the two proxies of proxy.go.
use skytap.Common.{◌≡◌, refl, true, some, [], arith}
use skytap.Text.{Str, codes}
use skytap.Net.{contains_byte, split_host_port, strip_host_port}
use skytap.Proxy.Target.{handle_http-connect}
use skytap.Proxy.{ProxyRequest, handle_http, tunnelled, established}
use skytap.Text.{equal_fold, is_ascii, lower_byte, ◌==◌}
use skytap.Tests.Samples.{ascii_only}
use skytap.Common.{Option, none}
use skytap.Proxy.Socks.{name, IsAddress}
use skytap.Tests.Samples.{api}

-- Every stream is one request to connect, with a few bytes behind it.
abbrev asked : ProxyRequest
asked = record {
  method = codes "CONNECT";
  host = codes "api.test:8443";
  rest = codes "tls";
  form = none;
}

abbrev read_request : Str → Option ProxyRequest
read_request s = some asked

abbrev connect : Str → Option Str
connect dst = none

is_connect : equal_fold ascii_only asked.method (codes "CONNECT") ≡ true
unfolding equal_fold is_ascii lower_byte ◌==◌
is_connect = refl

handle_http-connect_example :
    (dst : Str) × (p : Str) × (handle_http ascii_only read_request connect []
      ≡ tunnelled established (strip_host_port asked.host) dst asked.rest)
    × (split_host_port dst ≡ some (strip_host_port asked.host, p))
unfolding contains_byte
handle_http-connect_example =
    handle_http-connect ascii_only read_request connect [] asked refl is_connect refl refl

short_name : IsAddress (name api)
unfolding IsAddress
short_name = omega arith
