-- ===== src/Admin.antt =====
-- admin.go: the token in front of the handlers of the admin interface, and which of them answers.
pub mod Access
pub mod Cases
pub mod Complete
pub mod Effects
pub mod Frame
pub mod States
use skytap.Common.{not, ◌||◌, is_empty, Bool, false, if◌then◌else◌}
use skytap.Text.{Str, codes, ◌==◌, trim_prefix}
use skytap.Server.{Server}
use skytap.Handlers.{
  AdminRequest, Setup, Answer, query, failure, certificate, handle_domains, handle_history,
  handle_flows, handle_state, handle_rules, handle_mcp,
}
use skytap.Panel.{
  handle_pin_bypass, handle_ca_status, handle_ca_trust, handle_sslkit, handle_capture, handle_meta,
  handle_upgrade, handle_page,
}

unfoldable pub token_ok : Str → Str → Bool
token_ok got token = if is_empty token then false else got == token

-- The paths that the token does not guard.
unfoldable pub is_public : Str → Bool
is_public path =
    path == codes "/meta"
    || (path == codes "/" || (path == codes "/index.html" || path == codes "/pin-bypass"))

module _ {F : Type 0} (env : Setup F) where
  -- http.ServeMux, on a clean path. `token` is the one of adminMux, `random` is what a new rule draws.
  unfoldable pub mux : Str → Str → Server F → AdminRequest → Answer env
  unfolding handle_domains handle_history handle_flows handle_state handle_rules handle_mcp
      handle_pin_bypass handle_ca_status handle_ca_trust handle_sslkit handle_capture handle_meta
      handle_upgrade handle_page
  mux token random s r =
      if r.path == codes "/domains"
      then handle_domains env s r
      else if r.path == codes "/history"
      then handle_history env s r
      else if r.path == codes "/flows"
      then handle_flows env s r
      else if r.path == codes "/state"
      then handle_state env s r
      else if r.path == codes "/rules"
      then handle_rules env random s r
      else if r.path == codes "/mcp"
      then handle_mcp env random s r.body
      else if r.path == codes "/ca.pem"
      then (s, certificate env.pem)
      else if r.path == codes "/ca/status"
      then handle_ca_status env s
      else if r.path == codes "/ca/trust"
      then handle_ca_trust env s r
      else if r.path == codes "/sslkit"
      then handle_sslkit env s r
      else if r.path == codes "/sslkit/capture"
      then handle_capture env s r
      else if r.path == codes "/pin-bypass"
      then handle_pin_bypass env s r
      else if r.path == codes "/meta"
      then handle_meta env token s
      else if r.path == codes "/ws"
      then handle_upgrade env s
      else handle_page env s r

  -- The handler that adminMux returns.
  unfoldable pub serve : Str → Str → Server F → AdminRequest → Answer env
  unfolding mux is_public token_ok query
  serve token random s r =
      if is_empty token
      then mux token random s r
      else if is_public r.path
      then mux token random s r
      else if r.path == codes "/ws"
      then (if token_ok (query r (codes "token")) token
          then mux token random s r
          else (s, failure 401 (codes "unauthorized")))
      else if not (token_ok (trim_prefix r.authorization (codes "Bearer ")) token)
      then (s, failure 401 (codes "unauthorized"))
      else mux token random s r
