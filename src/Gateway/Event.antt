-- ===== src/Gateway/Event.antt =====
-- The audit event of a tool call, and the replies of the JSON-RPC surface.
-- Code: `AuditEvent` of mcp_governance_gateway/audit.py; `_result`, `_error`, `_tool_result` and
-- `_tool_error` of mcp_governance_gateway/mcp.py.
use mcp_governance_gateway.Base.{ℕ, String, true, Option, [], ◌∷◌}
use mcp_governance_gateway.Base.Int.{ℤ}
use mcp_governance_gateway.Base.Eq.{string_eq}
use mcp_governance_gateway.Runtime.{Runtime}
use mcp_governance_gateway.Value.{Value, bool, int, str, arr, obj, nil, cons, Args, entries, dict}

-- `resource_id` holds whatever the result holds under the key. The time stamp is written with the
-- event by the sink.
pub record AuditEvent : Type 0 where
  pub request_id : String
  pub actor : String
  pub project : String
  pub tool : String
  pub decision : String
  pub outcome : String
  pub reason : String
  pub resource_id : Value
  pub backend_status : Option String
  pub duration_ms : ℕ

unfoldable pub result_reply : Value → Value → Value
unfolding dict
result_reply id result = dict (("jsonrpc", str "2.0") ∷ ("id", id) ∷ ("result", result) ∷ [])

unfoldable pub error_reply : Value → ℤ → String → Value
unfolding dict
error_reply id code message = dict (
    ("jsonrpc", str "2.0")
    ∷ ("id", id)
    ∷ ("error", dict (("code", int code) ∷ ("message", str message) ∷ []))
    ∷ [])

abbrev pub text_content : String → Value
text_content text = arr (cons (dict (("type", str "text") ∷ ("text", str text) ∷ [])) nil)

unfoldable pub tool_result : Runtime → Value → Value
unfolding dict
tool_result rt structured =
    dict (
      ("content", text_content (rt.dumps_text structured)) ∷ ("structuredContent", structured) ∷ [])

unfoldable pub tool_error : String → Value
unfolding dict
tool_error message = dict (("content", text_content message) ∷ ("isError", bool true) ∷ [])

-- `isinstance(result, dict) and result.get(key)`, as a dict that is empty where there is none.
unfoldable pub dict_of : Value → Args
unfolding entries
dict_of (obj fs) = entries fs
dict_of _ = []
