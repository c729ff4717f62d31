-- ===== src/Mcp/Tools.antt =====
-- What the tools change.
use skytap.Common.{Option, none, some, inl, inr, ◌⊎◌, ◌||◌, if_case}
use skytap.Text.{Str, codes, ◌==◌, Unicode}
use skytap.GoMap.{GoMap}
use skytap.Flow.{FlowFields}
use skytap.Config.{Codec}
use skytap.Server.{Server}
use skytap.Server.Saving.{IsKept, same-IsKept, saved-IsKept}
use skytap.Mcp.{
  Arg, ToolText, RpcDecoder, RpcResult, RpcReq, ToolCall, call_tool, tool_result, run_call,
  run_method, handle_rpc,
}

module _ {F : Type 0} (u : Unicode) (fields : FlowFields F) (codec : Codec) (dir : Str) where
  open fields use {Time}

  call_tool-IsKept :
      (random : Str) (s : Server F) (name : Str) (m : GoMap Arg)
      → IsKept codec dir s (call_tool u fields codec dir random s name m).0
  unfolding call_tool
  call_tool-IsKept random s name m =
      let P : Server F × Option (ToolText Time) → Type 0 = λ x. IsKept codec dir s x.0 in
      let same = same-IsKept codec dir s in
      if_case P (name == codes "list_domains") _ _ (λ _. same)
        (λ _.
          if_case P (name == codes "set_state") _ _ (λ _. saved-IsKept codec dir s _ _)
            (λ _.
              if_case P (name == codes "add_rule") _ _ (λ _. saved-IsKept codec dir s _ _)
                (λ _. if_case P (name == codes "get_flows") _ _ (λ _. same) (λ _. same))))

  tool_result-IsKept :
      (s : Server F) (x : Server F × Option (ToolText Time))
      → IsKept codec dir s x.0
      → IsKept codec dir s (tool_result u fields codec dir x).0
  unfolding tool_result
  tool_result-IsKept s (s', none) h = h
  tool_result-IsKept s (s', some t) h = h

  module _ (decoder : RpcDecoder) where
    run_call-IsKept :
        (random : Str) (s : Server F) (call : Str ⊎ ToolCall)
        → IsKept codec dir s (run_call u fields codec dir decoder random s call).0
    unfolding run_call
    run_call-IsKept random s (inl message) = same-IsKept codec dir s
    run_call-IsKept random s (inr tc) = tool_result-IsKept s _ (call_tool-IsKept random s tc.name _)

    run_method-IsKept :
        (random : Str) (s : Server F) (method params : Str)
        → IsKept codec dir s (run_method u fields codec dir decoder random s method params).0
    unfolding run_method
    run_method-IsKept random s method params =
        let P : Server F × RpcResult Time → Type 0 = λ x. IsKept codec dir s x.0 in
        let same = same-IsKept codec dir s in
        if_case P (method == codes "initialize") _ _ (λ _. same)
          (λ _.
            if_case P (method == codes "notifications/initialized" || method == codes "ping") _ _
              (λ _. same)
              (λ _.
                if_case P (method == codes "tools/list") _ _ (λ _. same)
                  (λ _.
                    if_case P (method == codes "tools/call") _ _
                      (λ _. run_call-IsKept random s (decoder.call params)) (λ _. same))))

    pub handle_rpc-IsKept :
        (random : Str) (s : Server F) (req : Str ⊎ RpcReq decoder.RpcId)
        → IsKept codec dir s (handle_rpc u fields codec dir decoder random s req).0
    unfolding handle_rpc
    handle_rpc-IsKept random s (inl message) = same-IsKept codec dir s
    handle_rpc-IsKept random s (inr req) = run_method-IsKept random s req.method req.params
