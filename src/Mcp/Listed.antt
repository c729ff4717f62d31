-- ===== src/Mcp/Listed.antt =====
-- The list of tools against the tools that are there.
use skytap.Common.{Bool, false, List, [], ◌∷◌, none, ◌≡◌, refl, ◌↔◌, ◌||◌, inl, inr, Bool-cases}
use skytap.Text.{Str, codes, ◌==◌, Unicode}
use skytap.GoMap.{GoMap}
use skytap.Flow.{FlowFields}
use skytap.Config.{Codec}
use skytap.Server.{Server}
use skytap.Mcp.{Arg, Tool, mcp_tools, call_tool}

-- Whether one of the tools has the name.
unfoldable pub is_listed : Str → List Tool → Bool
is_listed name [] = false
is_listed name (t ∷ ts) = name == t.name || is_listed name ts

-- tools/list names exactly the tools that callTool knows: any other name is an error, whatever the
-- arguments.
pub call_tool_iff :
    {F : Type 0} (u : Unicode) (fields : FlowFields F) (codec : Codec) (dir random : Str)
    (s : Server F) (name : Str) (m : GoMap Arg)
    → ((call_tool u fields codec dir random s name m).1 ≡ none) ↔ (is_listed name mcp_tools ≡ false)
unfolding call_tool is_listed mcp_tools
call_tool_iff u fields codec dir random s name m =
    elim (Bool-cases (name == codes "list_domains")) [
      | inl a ↦ rw (call_tool, is_listed, mcp_tools, a) (λ e. absurd (cc), λ e. absurd (cc))
      | inr a ↦ elim (Bool-cases (name == codes "set_state")) [
        | inl b ↦ rw (call_tool, is_listed, mcp_tools, a, b) (λ e. absurd (cc), λ e. absurd (cc))
        | inr b ↦ elim (Bool-cases (name == codes "add_rule")) [
          | inl c ↦
              rw (call_tool, is_listed, mcp_tools, a, b, c) (λ e. absurd (cc), λ e. absurd (cc))
          | inr c ↦ elim (Bool-cases (name == codes "get_flows")) [
            | inl d ↦
                rw (call_tool, is_listed, mcp_tools, a, b, c, d)
                  (λ e. absurd (cc), λ e. absurd (cc))
            | inr d ↦ rw (call_tool, is_listed, mcp_tools, a, b, c, d) (λ e. refl, λ e. refl)
          ]
        ]
      ]
    ]
