-- ===== src/Gateway.antt =====
-- The boundary that each tool call passes.
-- Code: `_handle_tool_call` and `_audit` of mcp_governance_gateway/mcp.py, `HANDLERS` of
-- mcp_governance_gateway/tools/registry.py.
pub mod Rpc
pub mod Event
pub mod Permitted
pub mod Audited
pub mod Tests
use mcp_governance_gateway.Base.{
  ℕ, String, ◌<>◌, Bool, not, Option, none, some, List, [], ◌∷◌, if◌then◌else◌, is_some,
}
use mcp_governance_gateway.Base.Int.{negsuc}
use mcp_governance_gateway.Base.Text.{join, show}
use mcp_governance_gateway.Base.Dict.{get, keys}
use mcp_governance_gateway.Base.Eq.{string_eq, contains}
use mcp_governance_gateway.Errors.{
  Error, value_error, permission_error, auth_error, backend_error, key_error, key_store_error,
  type_error, attribute_error, overflow_error, Result, ok, err,
}
use mcp_governance_gateway.Principal.{Principal, from_principal}
use mcp_governance_gateway.Runtime.{Runtime}
use mcp_governance_gateway.Value.{Value, null, str, obj, Args, entries, get_value, truthy, or_else}
use mcp_governance_gateway.Confirm.Sorted.{sorted_set}
use mcp_governance_gateway.Policy.{PolicyDecision, deny, allowed, decide}
use mcp_governance_gateway.Tools.Spec.{Family, ToolSpec}
use mcp_governance_gateway.Tools.Registry.{specs_by_name}
use mcp_governance_gateway.Tools.Host.{World, Env, M}
use mcp_governance_gateway.Tools.Calls.Memory as Memory
use mcp_governance_gateway.Tools.Calls.Issues as Issues
use mcp_governance_gateway.Tools.Calls.Ci as Ci
use mcp_governance_gateway.Tools.Calls.Docs as Docs
use mcp_governance_gateway.Review.Service as Service
use mcp_governance_gateway.Gateway.Event.{
  AuditEvent, result_reply, error_reply, tool_result, tool_error, dict_of,
}

-- What handlers change, and the audit log, the newest event first.
pub record App : Type 0 where
  pub world : World
  pub audit : List AuditEvent

-- What differs between tool calls and is no argument of them.
pub record Moment : Type 0 where
  pub request_id : String
  pub duration_ms : ℕ
  pub quota_at : ℕ
  pub verified_at : ℕ
  pub issued_at : ℕ
  pub nonce : String
  pub staged_at : ℕ
  pub claimed_at : ℕ
  pub drawn_id : String
  pub drawn_token : String

-- The deployment: the configured backends are in `base`, whose principal, context, times and draws
-- each call sets anew.
pub record Deployment : Type 0 where
  pub base : Env
  pub definition : ToolSpec → Value
  pub version : String
  pub docs_projects : String → Bool
  pub ci_projects : String → Bool
  pub trigger_projects : String → Bool

-- `", ".join(sorted(undeclared))`, the keys that are not in the schema.
unfoldable pub undeclared : List String → List String → List String
undeclared declared [] = []
undeclared declared (key ∷ ks) =
    let rest = undeclared declared ks in if contains key declared then rest else key ∷ rest

-- str(exc)
unfoldable pub message_of : Error → String
message_of (value_error message) = message
message_of (permission_error message) = message
message_of (auth_error message) = message
message_of (backend_error message status) = message
message_of (key_store_error message) = message
message_of key_error = ""
message_of type_error = ""
message_of attribute_error = ""
message_of overflow_error = ""

unfoldable pub status_text : Option ℕ → String
unfolding show
status_text none = "error"
status_text (some status) = show status

-- The `resource_id` of `ci.stop`: `result["job"]` is a KeyError where there is no such key.
unfoldable pub stopped_handle : Runtime → Args → Result Value
unfolding get get_value or_else
stopped_handle rt result = elim (get "job" result) [
  | none ↦ err key_error
  | some job ↦ ok (
      str (
        rt.str_of job
        <> ":"
        <> rt.str_of (or_else (get_value result "queueItem") (get_value result "build"))))
]

-- spec.resource_id(result), or the result's `id` or `queueItem`.
unfoldable pub resource_of : Runtime → ToolSpec → Args → Result Value
unfolding stopped_handle get_value or_else
resource_of rt spec result =
    if spec.own_resource_id
    then stopped_handle rt result
    else ok (or_else (get_value result "id") (get_value result "queueItem"))

-- The handle of a result; None for one that is no dict.
unfoldable pub handle_of : Runtime → ToolSpec → Value → Result Value
unfolding resource_of entries
handle_of rt spec (obj fs) = resource_of rt spec (entries fs)
handle_of rt spec _ = ok null

-- params.get("arguments") or {}, and then whether it is a dict.
unfoldable pub dict_arg : Value → Option Args
unfolding truthy entries
dict_arg (obj fs) = some (entries fs)
dict_arg value = if truthy value then none else some []

module _ (host : Deployment) where
  unfoldable pub env_of : Principal → Moment → Env
  unfolding from_principal
  env_of p now = record host.base {
    principal = p;
    context = from_principal p now.request_id;
    quota_at = now.quota_at;
    verified_at = now.verified_at;
    issued_at = now.issued_at;
    nonce = now.nonce;
    staged_at = now.staged_at;
    claimed_at = now.claimed_at;
    drawn_id = now.drawn_id;
    drawn_token = now.drawn_token;
  }

  -- HANDLERS[family](...)
  unfoldable pub handler : Family → Env → Args → String → M Value
  unfolding Memory.call Issues.call Docs.call Ci.call
  handler Family.memory env arguments name = Memory.call env arguments name
  handler Family.issues env arguments name = Issues.call env arguments name
  handler Family.docs env arguments name = Docs.call env arguments name
  handler Family.ci env arguments name = Ci.call env arguments name

  -- The body of the `try` of `_handle_tool_call`.
  unfoldable pub attempt : Env → ToolSpec → Args → String → M Value
  unfolding undeclared handler
  attempt env spec arguments name w = elim (undeclared spec.arguments (keys arguments)) [
    | [] ↦ handler spec.family env arguments name w
    | key ∷ rest ↦ (
      err (
          value_error
            ("unknown argument(s) for " <> name <> ": " <> join ", " (sorted_set [] (key ∷ rest)))),
      w,
    )
  ]

  unfoldable pub event :
      String → Principal → Moment → PolicyDecision → String → Value → Option String → AuditEvent
  event tool p now decision outcome resource_id backend_status = record {
    request_id = now.request_id;
    actor = p.actor;
    project = p.project;
    tool = tool;
    decision = decision.decision;
    outcome = outcome;
    reason = decision.reason;
    resource_id = resource_id;
    backend_status = backend_status;
    duration_ms = now.duration_ms;
  }

  -- The reply to a raised error, with its audit event; an error of no caught class goes on.
  unfoldable pub caught :
      Error → Value → String → Principal → Moment → PolicyDecision → Result (Value × AuditEvent)
  unfolding event status_text message_of
  caught (value_error message) id name p now decision =
      ok (error_reply id (negsuc 32_601) message, event name p now decision "invalid" null none)
  caught (permission_error message) id name p now decision =
      ok
        (error_reply id (negsuc 32_002) message, event name p now (deny message) "denied" null none)
  caught (backend_error message status) id name p now decision = ok (
    result_reply id (tool_error message),
    event name p now decision "backend_error" null (some (status_text status)),
  )
  caught e id name p now decision = err e

  -- The reply to a result, with its audit event.
  unfoldable pub answered :
      Value
      → Value
      → String
      → ToolSpec
      → Principal
      → Moment
      → PolicyDecision
      → Result (Value × AuditEvent)
  unfolding event dict_of get_value truthy handle_of
  answered result id name spec p now decision =
      if truthy (get_value (dict_of result) "confirmationRequired")
      then ok (
        result_reply id (tool_result host.base.rt result),
        event name p now decision "confirm_required" null none,
      )
      else elim (handle_of host.base.rt spec result) [
        | err e ↦ err e
        | ok handle ↦ ok (
          result_reply id (tool_result host.base.rt result),
          event name p now decision "ok" handle (some "ok"),
        )
      ]

  -- The end of a call that the handler answered or left by an error.
  unfoldable pub finish :
      Result Value
      → Value
      → String
      → ToolSpec
      → Principal
      → Moment
      → PolicyDecision
      → Result (Value × AuditEvent)
  unfolding caught answered
  finish (ok result) id name spec p now decision = answered result id name spec p now decision
  finish (err e) id name spec p now decision = caught e id name p now decision

  abbrev pub logged : Result (Value × AuditEvent) → World → List AuditEvent → Result Value × App
  logged (ok (reply, e)) w audit = (ok reply, record { world = w; audit = e ∷ audit })
  logged (err e) w audit = (err e, record { world = w; audit = audit })

  -- A call that policy allows, with the spec that it found.
  unfoldable pub allowed_call :
      Value
      → String
      → Args
      → ToolSpec
      → Principal
      → Moment
      → PolicyDecision
      → App
      → Result Value × App
  unfolding attempt finish env_of
  allowed_call id name arguments spec p now decision app =
      let (result, world) = attempt (env_of p now) spec arguments name app.world in
      logged (finish result id name spec p now decision) world app.audit

  -- `audit_name`
  unfoldable pub audit_name : String → String
  unfolding specs_by_name get
  audit_name name = if is_some (get name specs_by_name) then name else "unknown"

  -- From the policy's decision on. `assert spec is not None` is an error of no caught class.
  unfoldable pub decided :
      Value → String → Args → Principal → Moment → PolicyDecision → App → Result Value × App
  unfolding allowed event audit_name get specs_by_name allowed_call
  decided id name arguments p now decision app =
      if not (allowed decision)
      then (
        ok (error_reply id (negsuc 32_002) decision.reason),
        record app {
          audit = event (audit_name name) p now decision "denied" null none ∷ app.audit;
        },
      )
      else elim (get name specs_by_name) [
        | none ↦ (err key_error, app)
        | some spec ↦ allowed_call id name arguments spec p now decision app
      ]

  unfoldable pub named_call : Value → String → Args → Principal → Moment → App → Result Value × App
  unfolding decided
  named_call id name arguments p now app = elim (decide specs_by_name name p) [
    | err e ↦ (err e, app)
    | ok decision ↦ decided id name arguments p now decision app
  ]

  unfoldable pub handle_tool_call : Value → Args → Principal → Moment → App → Result Value × App
  unfolding get_value dict_arg named_call
  handle_tool_call id params p now app =
      let refused : Result Value × App =
        (ok (error_reply id (negsuc 32_601) "Invalid tool call params"), app) in
      elim (get_value params "name") [
        | str name ↦ elim (dict_arg (get_value params "arguments")) [
          | some arguments ↦ named_call id name arguments p now app
          | none ↦ refused
        ]
        | _ ↦ refused
      ]
