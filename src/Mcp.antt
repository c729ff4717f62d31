-- ===== src/Mcp.antt =====
-- mcp.go: the JSON-RPC endpoint and its tools.
pub mod Tools
pub mod Listed
use skytap.Common.{
  ℕ, Option, none, some, List, [], ◌∷◌, ◌⊎◌, inl, inr, ◌||◌, is_empty, or_zero, if◌then◌else◌,
}
use skytap.Text.{Str, codes, ◌==◌, Unicode, to_upper}
use skytap.GoMap
use skytap.GoMap.{GoMap}
use skytap.Registry
use skytap.Registry.{DomainInfo, DomainState}
use skytap.Rules
use skytap.Rules.{Rule}
use skytap.Flow.{FlowFields, FlowView, flow_views}
use skytap.Config.{Codec}
use skytap.Server.{Server, saved}

-- A value of the arguments, as far as the tools look at it: `number` carries the bit pattern that
-- the conversion of the float64 to an int gives.
pub data Arg : Type 0 where
  text : Str → Arg
  number : ℕ → Arg
  other : Arg

unfoldable text_arg : GoMap Arg → Str → Str
text_arg m k = elim (GoMap.get m k) [ some (text s) ↦ s | _ ↦ [] ]

unfoldable status_arg : GoMap Arg → ℕ
status_arg m = elim (GoMap.get m (codes "status")) [ some (number n) ↦ n | _ ↦ 0 ]

-- What a tool answers with, before it is printed as JSON.
pub data ToolText (Time : Type 0) : Type 0 where
  domain_list : List DomainInfo → ToolText Time
  host_state : Str → DomainState → ToolText Time
  added : Rule → ToolText Time
  flow_list : List (FlowView Time) → ToolText Time

-- rpcReq and toolCall. Absent arguments are the empty text.
pub record RpcReq (RpcId : Type 0) : Type 0 where
  pub id : RpcId
  pub method : Str
  pub params : Str

pub record ToolCall : Type 0 where
  pub name : Str
  pub arguments : Str

-- encoding/json on requests: an error is its text.
pub record RpcDecoder : Type 1 where
  pub RpcId : Type 0
  pub request : Str → Str ⊎ RpcReq RpcId
  pub call : Str → Str ⊎ ToolCall
  pub arguments : Str → GoMap Arg

-- An entry of the list of tools: the names and the types of its properties, and those required, if
-- the schema says which.
pub record Tool : Type 0 where
  pub name : Str
  pub description : Str
  pub properties : List (Str × Str)
  pub required : Option (List Str)

unfoldable pub mcp_tools : List Tool
mcp_tools =
    record {
      name = codes "list_domains";
      description = codes "List observed domains and states";
      properties = [];
      required = none;
    }
    ∷ record {
      name = codes "set_state";
      description = codes "Set domain state OBSERVED|INTERCEPTED|MOCKED";
      properties = (codes "host", codes "string") ∷ (codes "state", codes "string") ∷ [];
      required = some (codes "host" ∷ codes "state" ∷ []);
    }
    ∷ record {
      name = codes "add_rule";
      description = codes "Add mock rule (host+path+method -> body)";
      properties =
          (codes "host", codes "string")
          ∷ (codes "path", codes "string")
          ∷ (codes "method", codes "string")
          ∷ (codes "status", codes "integer")
          ∷ (codes "body", codes "string")
          ∷ (codes "content_type", codes "string")
          ∷ [];
      required = some (codes "host" ∷ []);
    }
    ∷ record {
      name = codes "get_flows";
      description = codes "Recent flows for a host including capped bodies";
      properties = (codes "host", codes "string") ∷ [];
      required = some (codes "host" ∷ []);
    }
    ∷ []

-- The version of the protocol, the name and the version of the server are in `server_info`.
-- A negative error code is written without its sign.
pub data RpcResult (Time : Type 0) : Type 0 where
  server_info : Str → Str → Str → RpcResult Time
  empty_object : RpcResult Time
  tools : List Tool → RpcResult Time
  content : ToolText Time → RpcResult Time
  minus_error : ℕ → Str → RpcResult Time

unfoldable new_rule : GoMap Arg → Rule
unfolding text_arg status_arg
new_rule m = record {
  id = [];
  host = text_arg m (codes "host");
  path = text_arg m (codes "path");
  method = text_arg m (codes "method");
  status = status_arg m;
  body = text_arg m (codes "body");
  content_type = text_arg m (codes "content_type");
  action = [];
  rewrite_json = [];
  rewrite_body = [];
  script = [];
}

module _ {F : Type 0} (u : Unicode) (fields : FlowFields F) (codec : Codec) (dir : Str) where
  open fields use {Time}

  -- `m` is the arguments; `none` is os.ErrInvalid. `random` is what a new rule draws.
  unfoldable pub call_tool : Str → Server F → Str → GoMap Arg → Server F × Option (ToolText Time)
  unfolding text_arg new_rule saved flow_views
  call_tool random s name m =
      if name == codes "list_domains"
      then (s, some (domain_list (Registry.domains s.registry)))
      else if name == codes "set_state"
      then (
        saved codec dir s
            (Registry.set_state s.registry (text_arg m (codes "host"))
              (to_upper u (text_arg m (codes "state"))))
            s.rules,
        some (host_state (text_arg m (codes "host")) (to_upper u (text_arg m (codes "state")))),
      )
      else if name == codes "add_rule"
      then (
        saved codec dir s s.registry (Rules.add random s.rules (new_rule m)).0,
        some (added (new_rule m)),
      )
      else if name == codes "get_flows"
      then (
        s,
        some (
            flow_list
              (flow_views fields (Registry.flows_of s.registry (text_arg m (codes "host"))))),
      )
      else (s, none)

  -- The error of a tool is the text of os.ErrInvalid.
  unfoldable pub tool_result : Server F × Option (ToolText Time) → Server F × RpcResult Time
  tool_result (s, none) = (s, minus_error 32000 (codes "invalid argument"))
  tool_result (s, some t) = (s, content t)

  module _ (decoder : RpcDecoder) where
    -- The case "tools/call", behind the decoding of the parameters.
    unfoldable pub run_call : Str → Server F → Str ⊎ ToolCall → Server F × RpcResult Time
    unfolding call_tool tool_result
    run_call random s (inl message) = (s, minus_error 32602 message)
    run_call random s (inr tc) = tool_result (
        call_tool random s tc.name
          (if is_empty tc.arguments then [] else decoder.arguments tc.arguments))

    -- The switch of handleRPC.
    unfoldable pub run_method : Str → Server F → Str → Str → Server F × RpcResult Time
    unfolding run_call mcp_tools
    run_method random s method params =
        if method == codes "initialize"
        then (s, server_info (codes "2024-11-05") (codes "skytap") (codes "0.1.0"))
        else if method == codes "notifications/initialized" || method == codes "ping"
        then (s, empty_object)
        else if method == codes "tools/list"
        then (s, tools mcp_tools)
        else if method == codes "tools/call"
        then run_call random s (decoder.call params)
        else (s, minus_error 32601 (codes "method not found"))

    -- The identifier that the answer carries, if any, and its result or error.
    unfoldable pub handle_rpc :
        Str
        → Server F
        → Str ⊎ RpcReq decoder.RpcId
        → Server F × Option decoder.RpcId × RpcResult Time
    unfolding run_method
    handle_rpc random s (inl message) = (s, none, minus_error 32700 message)
    handle_rpc random s (inr req) =
        let (s', result) = run_method random s req.method req.params in (s', some req.id, result)
