-- ===== src/Admin/Complete.antt =====
-- The rules that the handlers leave behind.
use mathlib.Core.Path.{subst}
use skytap.Common.{
  sym, ◌≡◌, false, not, inl, inr, ◌⊎◌, ◌||◌, if_case, is_empty, All, Option, none, some,
}
use skytap.Text.{Str, codes, ◌==◌, Unicode, to_upper}
use skytap.GoMap.{GoMap}
use skytap.Rules
use skytap.Rules.{Rule, RuleEngine}
use skytap.Rules.Store.{IsComplete, Edit, edit, edit-IsComplete}
use skytap.Flow.{FlowFields}
use skytap.Config.{Codec}
use skytap.Server.{Server, saved}
use skytap.Mcp.{
  Arg, ToolText, RpcDecoder, RpcResult, RpcReq, ToolCall, call_tool, tool_result, run_call,
  run_method, handle_rpc,
}
use skytap.Handlers.{
  AdminRequest, Setup, Answer, query, is_state, handle_domains, handle_history, handle_state,
  post_rule, handle_rules, handle_mcp,
}
use skytap.Panel.{handle_ca_trust, handle_sslkit, handle_capture, handle_pin_bypass}
use skytap.Admin.{serve}
use skytap.Admin.Frame.{Frame, trust-Frame, sslkit-Frame, capture-Frame, pin-Frame}
use skytap.Admin.Cases.{mux-all, serve-all}

-- Every rule of the engine has an identifier and an action.
abbrev pub HasComplete : {F : Type 0} → Server F → Type 0
HasComplete s = All IsComplete s.rules.rules

added-IsComplete :
    (random : Str) (e : RuleEngine) (r : Rule)
    → is_empty random ≡ false
    → All IsComplete e.rules
    → All IsComplete (Rules.add random e r).0.rules
unfolding edit
added-IsComplete random e r draws h = edit-IsComplete e (Edit.add random r) draws h

deleted-IsComplete :
    (e : RuleEngine) (id : Str)
    → All IsComplete e.rules
    → All IsComplete (Rules.delete e id).0.rules
unfolding edit
deleted-IsComplete e id h = edit-IsComplete e (Edit.delete id) tt h

module _ {F : Type 0} (u : Unicode) (fields : FlowFields F) (codec : Codec) (dir random : Str)
    (draws : is_empty random ≡ false) (s : Server F) (valid : HasComplete s) where
  open fields use {Time}

  tool-HasComplete :
      (name : Str) (m : GoMap Arg) → HasComplete (call_tool u fields codec dir random s name m).0
  unfolding call_tool saved
  tool-HasComplete name m =
      let P : Server F × Option (ToolText Time) → Type 0 = λ x. HasComplete x.0 in
      if_case P (name == codes "list_domains") _ _ (λ _. valid)
        (λ _.
          if_case P (name == codes "set_state") _ _ (λ _. valid)
            (λ _.
              if_case P (name == codes "add_rule") _ _
                (λ _. added-IsComplete random s.rules _ draws valid)
                (λ _. if_case P (name == codes "get_flows") _ _ (λ _. valid) (λ _. valid))))

  result-HasComplete :
      (x : Server F × Option (ToolText Time))
      → HasComplete x.0
      → HasComplete (tool_result u fields codec dir x).0
  unfolding tool_result
  result-HasComplete (s', none) h = h
  result-HasComplete (s', some t) h = h

  module _ (decoder : RpcDecoder) where
    call-HasComplete :
        (call : Str ⊎ ToolCall) → HasComplete (run_call u fields codec dir decoder random s call).0
    unfolding run_call
    call-HasComplete (inl message) = valid
    call-HasComplete (inr tc) = result-HasComplete _ (tool-HasComplete tc.name _)

    method-HasComplete :
        (method params : Str)
        → HasComplete (run_method u fields codec dir decoder random s method params).0
    unfolding run_method
    method-HasComplete method params =
        let P : Server F × RpcResult Time → Type 0 = λ x. HasComplete x.0 in
        if_case P (method == codes "initialize") _ _ (λ _. valid)
          (λ _.
            if_case P (method == codes "notifications/initialized" || method == codes "ping") _ _
              (λ _. valid)
              (λ _.
                if_case P (method == codes "tools/list") _ _ (λ _. valid)
                  (λ _.
                    if_case P (method == codes "tools/call") _ _
                      (λ _. call-HasComplete (decoder.call params)) (λ _. valid))))

    rpc-HasComplete :
        (req : Str ⊎ RpcReq decoder.RpcId)
        → HasComplete (handle_rpc u fields codec dir decoder random s req).0
    unfolding handle_rpc
    rpc-HasComplete (inl message) = valid
    rpc-HasComplete (inr req) = method-HasComplete req.method req.params

module _ {F : Type 0} (env : Setup F) (s : Server F) (r : AdminRequest)
    (valid : HasComplete s) where
  open env use {unicode, fields, codec, decoder, dir}

  domains-HasComplete : HasComplete (handle_domains env s r).0
  unfolding handle_domains saved
  domains-HasComplete =
      let Q : Answer env → Type 0 = λ a. HasComplete a.0 in
      if_case Q (r.method == codes "DELETE") _ _
        (λ _. if_case Q (is_empty (query r (codes "host"))) _ _ (λ _. valid) (λ _. valid))
        (λ _. valid)

  history-HasComplete : HasComplete (handle_history env s r).0
  unfolding handle_history saved
  history-HasComplete =
      let Q : Answer env → Type 0 = λ a. HasComplete a.0 in
      if_case Q (not (r.method == codes "DELETE")) _ _ (λ _. valid)
        (λ _.
          if_case Q (query r (codes "scope") == codes "all") _ _ (λ _. valid)
            (λ _.
              if_case Q (query r (codes "scope") == codes "flows") _ _ (λ _. valid) (λ _. valid)))

  state-HasComplete : HasComplete (handle_state env s r).0
  unfolding handle_state saved
  state-HasComplete =
      let Q : Answer env → Type 0 = λ a. HasComplete a.0 in
      let st = to_upper unicode (query r (codes "state")) in
      if_case Q (is_empty (query r (codes "host")) || is_empty st) _ _ (λ _. valid)
        (λ _. if_case Q (is_state st) _ _ (λ _. valid) (λ _. valid))

  module _ (random : Str) (draws : is_empty random ≡ false) where
    post-HasComplete : (d : Str ⊎ Rule) → HasComplete (post_rule env random s d).0
    unfolding post_rule saved
    post-HasComplete (inl message) = valid
    post-HasComplete (inr new) = added-IsComplete random s.rules new draws valid

    rules-HasComplete : HasComplete (handle_rules env random s r).0
    unfolding handle_rules saved
    rules-HasComplete =
        let Q : Answer env → Type 0 = λ a. HasComplete a.0 in
        if_case Q (r.method == codes "DELETE") _ _
          (λ _.
            if_case Q (is_empty (query r (codes "id"))) _ _ (λ _. valid)
              (λ _.
                if_case Q (Rules.delete s.rules (query r (codes "id"))).1 _ _
                  (λ _. deleted-IsComplete s.rules _ valid) (λ _. valid)))
          (λ _.
            if_case Q (r.method == codes "POST") _ _ (λ _. post-HasComplete (decoder.rule r.body))
              (λ _. valid))

    mcp-HasComplete : (body : Str ⊎ Str) → HasComplete (handle_mcp env random s body).0
    unfolding handle_mcp
    mcp-HasComplete (inl message) = valid
    mcp-HasComplete (inr raw) =
        rpc-HasComplete unicode fields codec dir random draws s valid decoder.rpc
          (decoder.rpc.request raw)

    Frame-HasComplete : (s' : Server F) → Frame s s' → HasComplete s'
    Frame-HasComplete s' (_, same) =
        subst (λ (e : RuleEngine). All IsComplete e.rules) (sym same) valid

    -- Whatever the token and the request.
    pub serve-HasComplete : (token : Str) → HasComplete (serve env token random s r).0
    serve-HasComplete token =
        let P : Server F → Type 0 = λ x. HasComplete x in
        serve-all env P token random s r valid (
          mux-all env P token random s r valid domains-HasComplete history-HasComplete
            state-HasComplete rules-HasComplete (λ _. mcp-HasComplete r.body)
            (Frame-HasComplete (handle_ca_trust env s r).0 (trust-Frame env s r))
            (Frame-HasComplete (handle_sslkit env s r).0 (sslkit-Frame env s r))
            (Frame-HasComplete (handle_capture env s r).0 (capture-Frame env s r))
            (λ _. Frame-HasComplete (handle_pin_bypass env s r).0 (pin-Frame env s r)))
