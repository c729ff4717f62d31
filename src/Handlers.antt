-- ===== src/Handlers.antt =====
-- admin.go: what the handlers of the admin interface read and write, and those of the hosts, the
-- history, the flows, the states, the rules and the JSON-RPC endpoint.
use skytap.Common.{
  ℕ, Bool, not, ◌||◌, Option, List, [], ◌∷◌, ◌++◌, ◌⊎◌, inl, inr, is_empty, or_zero, if◌then◌else◌,
}
use skytap.Text.{Str, codes, ◌==◌, Unicode, to_upper}
use skytap.GoMap
use skytap.GoMap.{GoMap}
use skytap.Registry
use skytap.Registry.{Registry, DomainInfo, DomainState, observed, intercepted, mocked}
use skytap.Rules
use skytap.Rules.{Rule}
use skytap.Flow.{FlowFields, FlowView, flow_views}
use skytap.Config.{Codec}
use skytap.Net.{Addresses}
use skytap.SslKit.{HostSslPolicy, Toolkit}
use skytap.CaTrust.{System, CaStatus}
use skytap.CaTrust.Install.{InstallError}
use skytap.Server.{Server, saved}
use skytap.Mcp.{RpcDecoder, RpcResult, handle_rpc}

-- What the handlers read of a request: `path` is URL.Path, `query` has the first value of each key
-- of URL.Query(), `authorization` is that header, `body` is the body or the text of the error of
-- reading it.
pub record AdminRequest : Type 0 where
  pub method : Str
  pub path : Str
  pub query : GoMap Str
  pub authorization : Str
  pub body : Str ⊎ Str

-- Decoding a body as JSON: a rule or a policy, or the text of the error; the field "enabled", false
-- where there is none; the fields "host" and "dst", empty where there are none; and the requests of
-- the JSON-RPC endpoint.
pub record BodyDecoder : Type 1 where
  pub rule : Str ⊎ Str → Str ⊎ Rule
  pub policy : Str ⊎ Str → Str ⊎ HostSslPolicy
  pub enabled : Str ⊎ Str → Bool
  pub target : Str ⊎ Str → Str × Str
  pub rpc : RpcDecoder

-- What adminMux is given, and what stands around it: the decoders, the machine, the data directory,
-- the address of the listener, the certificate, whether there is a hub, and the embedded page.
pub record Setup (F : Type 0) : Type 1 where
  pub unicode : Unicode
  pub fields : FlowFields F
  pub codec : Codec
  pub decoder : BodyDecoder
  pub toolkit : Toolkit
  pub system : System
  pub addresses : Addresses
  pub dir : Str
  pub bind : Str
  pub pem : Str
  pub has_hub : Bool
  pub index_page : Option Str

-- What a handler writes, before it is printed; `done` has the fields that depend on the request.
-- `upgrade` hands the connection to handleWS, `file` to the server of the embedded files.
pub data Reply (RpcId Time : Type 0) : Type 0 where
  failure : ℕ → Str → Reply RpcId Time
  done : GoMap Str → Reply RpcId Time
  domain_list : List DomainInfo → Reply RpcId Time
  flow_list : List (FlowView Time) → Reply RpcId Time
  rule : Rule → Reply RpcId Time
  rule_list : List Rule → Reply RpcId Time
  enabled : Bool → Reply RpcId Time
  rpc : Option RpcId → RpcResult Time → Reply RpcId Time
  certificate : Str → Reply RpcId Time
  ca : CaStatus → Reply RpcId Time
  not_installed : InstallError → Reply RpcId Time
  policy : HostSslPolicy → Reply RpcId Time
  policy_list : List HostSslPolicy → Reply RpcId Time
  not_captured : Reply RpcId Time
  meta : Str → Bool → Bool → Reply RpcId Time
  page : Str → Reply RpcId Time
  file : Str → Reply RpcId Time
  upgrade : Reply RpcId Time

-- URL.Query().Get
unfoldable pub query : AdminRequest → Str → Str
query r k = or_zero [] (GoMap.get r.query k)

-- The cases of the switch of /state.
unfoldable pub is_state : DomainState → Bool
is_state st = st == observed || (st == intercepted || st == mocked)

module _ {F : Type 0} (env : Setup F) where
  open env use {unicode, fields, codec, decoder, dir}
  open fields use {Time}

  abbrev pub Answer : Type 0
  Answer = Server F × Reply decoder.rpc.RpcId Time

  unfoldable pub handle_domains : Server F → AdminRequest → Answer
  unfolding query saved
  handle_domains s r =
      if r.method == codes "DELETE"
      then (if is_empty (query r (codes "host"))
          then (s, failure 400 (codes "host required"))
          else (
            saved codec dir s (Registry.delete_host s.registry (query r (codes "host"))) s.rules,
            done ((codes "host", query r (codes "host")) ∷ []),
          ))
      else (s, domain_list (Registry.domains s.registry))

  unfoldable pub handle_history : Server F → AdminRequest → Answer
  unfolding query saved
  handle_history s r =
      if not (r.method == codes "DELETE")
      then (s, failure 405 (codes "DELETE only"))
      else if query r (codes "scope") == codes "all"
      then (
        saved codec dir s (Registry.reset s.registry) s.rules,
        done ((codes "scope", codes "all") ∷ (codes "host", query r (codes "host")) ∷ []),
      )
      else if query r (codes "scope") == codes "flows"
      then (
        saved codec dir s (Registry.clear_flows s.registry (query r (codes "host"))) s.rules,
        done ((codes "scope", codes "flows") ∷ (codes "host", query r (codes "host")) ∷ []),
      )
      else (s, failure 400 (codes "scope=all|flows"))

  -- The flows of the hosts, in the order of the list of the domains.
  unfoldable all_flows : Registry F → List DomainInfo → List (FlowView Time)
  unfolding flow_views
  all_flows reg [] = []
  all_flows reg (d ∷ ds) = flow_views fields (Registry.flows_of reg d.host) ++ all_flows reg ds

  unfoldable pub handle_flows : Server F → AdminRequest → Answer
  unfolding query all_flows
  handle_flows s r = (
    s,
    flow_list (
        if is_empty (query r (codes "host"))
        then all_flows s.registry (Registry.domains s.registry)
        else flow_views fields (Registry.flows_of s.registry (query r (codes "host")))),
  )

  unfoldable pub handle_state : Server F → AdminRequest → Answer
  unfolding query saved is_state
  handle_state s r =
      let host = query r (codes "host") in
      let st = to_upper unicode (query r (codes "state")) in
      if is_empty host || is_empty st
      then (s, failure 400 (codes "host and state required"))
      else if is_state st
      then (
        saved codec dir s (Registry.set_state s.registry host st) s.rules,
        done ((codes "host", host) ∷ (codes "state", st) ∷ []),
      )
      else (s, failure 400 (codes "state must be OBSERVED, INTERCEPTED, or MOCKED"))

  -- A rule that the body gave, or the error. `random` is what a new rule draws.
  unfoldable pub post_rule : Str → Server F → Str ⊎ Rule → Answer
  unfolding saved
  post_rule random s (inl message) = (s, failure 400 message)
  post_rule random s (inr new) =
      let (rules', added) = Rules.add random s.rules new in
      (saved codec dir s s.registry rules', rule added)

  unfoldable pub handle_rules : Str → Server F → AdminRequest → Answer
  unfolding query saved post_rule
  handle_rules random s r =
      if r.method == codes "DELETE"
      then (if is_empty (query r (codes "id"))
          then (s, failure 400 (codes "id required"))
          else let (rules', found) = Rules.delete s.rules (query r (codes "id")) in
            if found
            then (
              saved codec dir s s.registry rules',
              done ((codes "id", query r (codes "id")) ∷ []),
            )
            else (s, failure 404 (codes "not found")))
      else if r.method == codes "POST"
      then post_rule random s (decoder.rule r.body)
      else (s, rule_list (Rules.all_rules s.rules))

  -- mcpHandler, on the body that it has read.
  unfoldable pub handle_mcp : Str → Server F → Str ⊎ Str → Answer
  handle_mcp random s (inl message) = (s, failure 400 message)
  handle_mcp random s (inr raw) =
      let (s', id, result) =
        handle_rpc unicode fields codec dir decoder.rpc random s (decoder.rpc.request raw) in
      (s', rpc id result)
