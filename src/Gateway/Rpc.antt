-- ===== src/Gateway/Rpc.antt =====
-- The JSON-RPC surface. Code: `handle_rpc`, `enabled_features` and `_initialize` of `GatewayApp` of
-- mcp_governance_gateway/mcp.py.
use mcp_governance_gateway.Base.{
  String, ◌<>◌, Bool, false, not, ◌&&◌, Option, none, some, List, [], ◌∷◌, ◌++◌, map, if◌then◌else◌,
}
use mcp_governance_gateway.Base.Int.{negsuc}
use mcp_governance_gateway.Base.Eq.{◌==◌, string_eq}
use mcp_governance_gateway.Errors.{Result, ok, err}
use mcp_governance_gateway.Principal.{Principal}
use mcp_governance_gateway.Value.{
  Value, null, bool, str, arr, Items, nil, cons, Args, dict, get_value,
}
use mcp_governance_gateway.Tools.Spec.{Feature}
use mcp_governance_gateway.Tools.Registry.{visible_tools}
use mcp_governance_gateway.Review.Service as Service
use mcp_governance_gateway.Gateway.Event.{result_reply, error_reply}
use mcp_governance_gateway.Gateway.{App, Moment, Deployment, dict_arg, handle_tool_call}

module _ (host : Deployment) where
  -- `if test: features.add(feature)`
  abbrev pub feature_if : Bool → Feature → List Feature
  feature_if on feature = if on then feature ∷ [] else []

  unfoldable pub enabled_features : Principal → List Feature
  unfolding Service.has_project
  enabled_features p =
      feature_if host.base.has_issues Feature.issues
      ++ feature_if (host.base.has_docs && host.docs_projects p.project) Feature.docs
      ++ feature_if (host.base.has_review && Service.has_project host.base p.project)
          Feature.docs_review
      ++ feature_if host.base.has_stage Feature.docs_stage
      ++ feature_if (host.base.has_ci && host.ci_projects p.project) Feature.ci
      ++ feature_if
          (host.base.has_ci && host.ci_projects p.project && host.trigger_projects p.project)
          Feature.ci_write

  unfoldable pub initialize : Value
  unfolding dict
  initialize = dict (
      ("protocolVersion", str "2025-06-18")
      ∷ ("capabilities", dict (("tools", dict (("listChanged", bool false) ∷ [])) ∷ []))
      ∷ (
        "serverInfo",
        dict (
            ("name", str "mcp-governance-gateway")
            ∷ ("title", str "MCP Governance Gateway")
            ∷ ("version", str host.version)
            ∷ []),
      )
      ∷ [])

  abbrev pub values : List Value → Items
  values [] = nil
  values (v ∷ vs) = cons v (values vs)

  unfoldable pub handle_method :
      Value → String → Args → Principal → Moment → App → Result Value × App
  unfolding initialize enabled_features visible_tools handle_tool_call
  handle_method id method params p now app =
      if method == "initialize"
      then (ok (result_reply id initialize), app)
      else if method == "ping"
      then (ok (result_reply id (dict [])), app)
      else if method == "tools/list"
      then (
        ok (
            result_reply id (
              dict (
                ("tools", arr (values (map host.definition (visible_tools p (enabled_features p)))))
                ∷ []))),
        app,
      )
      else if method == "tools/call"
      then handle_tool_call host id params p now app
      else (ok (error_reply id (negsuc 32_600) ("Method not found: " <> method)), app)

  -- A reply, or `None` for a notification.
  abbrev pub some_reply : Result Value × App → Result (Option Value) × App
  some_reply (ok reply, app) = (ok (some reply), app)
  some_reply (err e, app) = (err e, app)

  -- From the tests of the method and the parameters on.
  unfoldable pub handle_request :
      Value → String → Args → Principal → Moment → App → Result (Option Value) × App
  unfolding handle_method
  handle_request null method params p now app = (ok none, app)
  handle_request id method params p now app = some_reply (handle_method id method params p now app)

  abbrev pub is_version_2 : Value → Bool
  is_version_2 (str s) = s == "2.0"
  is_version_2 _ = false

  unfoldable pub handle_rpc : Args → Principal → Moment → App → Result (Option Value) × App
  unfolding get_value dict_arg handle_request
  handle_rpc message p now app =
      let id = get_value message "id" in
      let invalid : Result (Option Value) × App =
        (ok (some (error_reply id (negsuc 32_599) "Invalid Request")), app) in
      if not (is_version_2 (get_value message "jsonrpc"))
      then invalid
      else elim (get_value message "method") [
        | str method ↦ elim (dict_arg (get_value message "params")) [
          | some params ↦ handle_request id method params p now app
          | none ↦ (ok (some (error_reply id (negsuc 32_601) "Invalid params")), app)
        ]
        | _ ↦ invalid
      ]
