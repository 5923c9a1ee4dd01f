-- ===== src/Gateway/Permitted.antt =====
-- Which tool calls reach a handler. Code: `_handle_tool_call` of mcp_governance_gateway/mcp.py.
use mcp_governance_gateway.Base.{
  String, ◌≡◌, ◌≢◌, refl, ap, ◌∙◌, ◌⊎◌, inl, inr, true, false, none, some, List, [], ◌∷◌,
  Bool-cases, Option-cases, All,
}
use mcp_governance_gateway.Base.Dict.{get, keys}
use mcp_governance_gateway.Base.Eq.{string_eq, Among, contains, contains_iff}
use mcp_governance_gateway.Errors.{Error, Result, ok, err}
use mcp_governance_gateway.Principal.{Principal}
use mcp_governance_gateway.Value.{Value, str, Args, get_value}
use mcp_governance_gateway.Policy.{PolicyDecision, allowed, decide}
use mcp_governance_gateway.Policy.Decision.{Allows}
use mcp_governance_gateway.Tools.Spec.{Family, ToolSpec}
use mcp_governance_gateway.Tools.Registry.{specs_by_name}
use mcp_governance_gateway.Tools.Host.{World, Env}
use mcp_governance_gateway.Tools.Calls.Gated.{gated, IsConfirmed, Guards}
use mcp_governance_gateway.Tools.Calls.Confirmed.{ci-Guards, issues-Guards}
use mcp_governance_gateway.Tools.Calls.Ungated.{memory-Guards}
use mcp_governance_gateway.Tools.Calls.Proposed.{docs-Guards}
use mcp_governance_gateway.Gateway.{
  App, Moment, Deployment, undeclared, dict_arg, env_of, handler, attempt, logged, allowed_call,
  decided, named_call, handle_tool_call,
}
use mcp_governance_gateway.Gateway.Event.{AuditEvent}

undeclared-Among :
    (names ks : List String) → undeclared names ks ≡ [] → All (λ key. Among key names) ks
unfolding undeclared
undeclared-Among names [] h = tt
undeclared-Among names (key ∷ ks) h = elim (Bool-cases (contains key names)) [
  | inl e ↦ ((contains_iff key names).0 e, undeclared-Among names ks (rw e at h))
  | inr e ↦ let extra : key ∷ undeclared names ks ≡ [] = rw e at h in absurd (cc)
]

module _ (host : Deployment) where
  -- Policy allows the tool, its schema declares all arguments, and the handler ran on the world.
  pub record IsPermitted (name : String) (arguments : Args) (p : Principal) (now : Moment)
      (before after : World) : Type 0 where
    pub spec : ToolSpec
    pub known : get name specs_by_name ≡ some spec
    pub allows : Allows (decide specs_by_name name p)
    pub declared : undeclared spec.arguments (keys arguments) ≡ []
    pub among : All (λ key. Among key spec.arguments) (keys arguments)
    pub ran : after ≡ (handler host spec.family (env_of host p now) arguments name before).1

  logged-world :
      (r : Result (Value × AuditEvent)) (w : World) (audit : List AuditEvent)
      → (logged host r w audit).1.world ≡ w
  logged-world (ok (reply, e)) w audit = refl
  logged-world (err e) w audit = refl

  attempt_cases :
      (env : Env) (spec : ToolSpec) (arguments : Args) (name : String) (w : World)
      → ((attempt host env spec arguments name w).1 ≡ w)
        ⊎ ((undeclared spec.arguments (keys arguments) ≡ [])
            × ((attempt host env spec arguments name w).1
                ≡ (handler host spec.family env arguments name w).1))
  unfolding attempt
  attempt_cases env spec arguments name w = go (undeclared spec.arguments (keys arguments)) refl
    where
      go :
          (ks : List String)
          → undeclared spec.arguments (keys arguments) ≡ ks
          → ((attempt host env spec arguments name w).1 ≡ w)
            ⊎ ((undeclared spec.arguments (keys arguments) ≡ [])
                × ((attempt host env spec arguments name w).1
                    ≡ (handler host spec.family env arguments name w).1))
      go [] e = inr (e, rw (attempt, e))
      go (k ∷ ks) e = inl (rw (attempt, e))

  allowed_call-world :
      (id : Value) (name : String) (arguments : Args) (spec : ToolSpec) (p : Principal)
      (now : Moment) (decision : PolicyDecision) (app : App)
      → (allowed_call host id name arguments spec p now decision app).1.world
        ≡ (attempt host (env_of host p now) spec arguments name app.world).1
  unfolding allowed_call
  allowed_call-world id name arguments spec p now decision app = logged-world _ _ _

  module _ (id : Value) (name : String) (arguments : Args) (p : Principal) (now : Moment)
      (app : App) where
    raised-world :
        (x : Error)
        → decide specs_by_name name p ≡ err x
        → (named_call host id name arguments p now app).1.world ≡ app.world
    unfolding named_call
    raised-world x e = rw (named_call, e)

    denied-world :
        (decision : PolicyDecision)
        → decide specs_by_name name p ≡ ok decision
        → allowed decision ≡ false
        → (named_call host id name arguments p now app).1.world ≡ app.world
    unfolding named_call decided
    denied-world decision e denied = rw (named_call, e, decided, denied)

    unknown-world :
        (decision : PolicyDecision)
        → decide specs_by_name name p ≡ ok decision
        → allowed decision ≡ true
        → get name specs_by_name ≡ none
        → (named_call host id name arguments p now app).1.world ≡ app.world
    unfolding named_call decided
    unknown-world decision e allow unknown = rw (named_call, e, decided, allow, unknown)

    pub named_allowed :
        (decision : PolicyDecision) (spec : ToolSpec)
        → decide specs_by_name name p ≡ ok decision
        → allowed decision ≡ true
        → get name specs_by_name ≡ some spec
        → named_call host id name arguments p now app
          ≡ allowed_call host id name arguments spec p now decision app
    unfolding named_call decided
    named_allowed decision spec e allow known = rw (named_call, e, decided, allow, known)

    named_call_cases :
        ((named_call host id name arguments p now app).1.world ≡ app.world)
        ⊎ IsPermitted name arguments p now app.world
            (named_call host id name arguments p now app).1.world
    named_call_cases = go (decide specs_by_name name p) refl
      where
        go :
            (r : Result PolicyDecision)
            → decide specs_by_name name p ≡ r
            → ((named_call host id name arguments p now app).1.world ≡ app.world)
              ⊎ IsPermitted name arguments p now app.world
                  (named_call host id name arguments p now app).1.world
        go (err x) e = inl (raised-world x e)
        go (ok decision) e = elim (Bool-cases (allowed decision)) [
          | inr denied ↦ inl (denied-world decision e denied)
          | inl allow ↦ elim (Option-cases (get name specs_by_name)) [
            | inl unknown ↦ inl (unknown-world decision e allow unknown)
            | inr (spec, known) ↦
                let same =
                  ap (λ (r : Result Value × App). r.1.world)
                    (named_allowed decision spec e allow known)
                  ∙ allowed_call-world id name arguments spec p now decision app in
                elim (attempt_cases (env_of host p now) spec arguments name app.world) [
                  | inl kept ↦ inl (same ∙ kept)
                  | inr (declared, ran) ↦ inr (record {
                    spec = spec;
                    known = known;
                    allows = rw e allow;
                    declared = declared;
                    among = undeclared-Among spec.arguments (keys arguments) declared;
                    ran = same ∙ ran;
                  })
                ]
          ]
        ]

-- A call with a name and a dict of arguments is `named_call`.
pub handle_tool_call-named :
    (host : Deployment) (id : Value) (params : Args) (name : String) (arguments : Args)
    (p : Principal) (now : Moment) (app : App)
    → get_value params "name" ≡ str name
    → dict_arg (get_value params "arguments") ≡ some arguments
    → handle_tool_call host id params p now app ≡ named_call host id name arguments p now app
unfolding handle_tool_call
handle_tool_call-named host id params name arguments p now app en ea = rw (handle_tool_call, en, ea)

-- A tool call that changes anything but the audit log, be it a quota, a confirmation or a backend,
-- is one that policy allows, whose arguments the tool's schema all declares; and its change is that
-- of the handler of the tool's family.
pub handle_tool_call-IsPermitted :
    (host : Deployment) (id : Value) (params : Args) (name : String) (arguments : Args)
    (p : Principal) (now : Moment) (app : App)
    → get_value params "name" ≡ str name
    → dict_arg (get_value params "arguments") ≡ some arguments
    → (handle_tool_call host id params p now app).1.world ≢ app.world
    → IsPermitted host name arguments p now app.world
        (handle_tool_call host id params p now app).1.world
handle_tool_call-IsPermitted host id params name arguments p now app en ea changed =
    let named = handle_tool_call-named host id params name arguments p now app en ea in
    elim (named_call_cases host id name arguments p now app) [
      | inl kept ↦ absurd (changed (rw named kept))
      | inr permitted ↦ rw named permitted
    ]

handler-Guards :
    (host : Deployment) (env : Env) (arguments : Args) (w : World) (family : Family) (name : String)
    → Guards env arguments w name (handler host family env arguments name)
unfolding handler
handler-Guards host env arguments w Family.memory name = memory-Guards env arguments w name
handler-Guards host env arguments w Family.issues name = issues-Guards env arguments w name
handler-Guards host env arguments w Family.docs name = docs-Guards env arguments w name
handler-Guards host env arguments w Family.ci name = ci-Guards env arguments w name

-- A tool call that lets a gated method of a backend be called, one that creates or changes an issue,
-- starts or stops a build, or opens, revises, comments on, assigns or withdraws a proposal, carries
-- a `confirm` argument that the store, as it was before the call, accepts for the same caller and
-- tool.
pub handle_tool_call-IsConfirmed :
    (host : Deployment) (id : Value) (params : Args) (name : String) (arguments : Args)
    (p : Principal) (now : Moment) (app : App)
    → get_value params "name" ≡ str name
    → dict_arg (get_value params "arguments") ≡ some arguments
    → gated (handle_tool_call host id params p now app).1.world.sent ≢ gated app.world.sent
    → IsConfirmed (env_of host p now) arguments name app.world.confirm
handle_tool_call-IsConfirmed host id params name arguments p now app en ea sent =
    let permitted =
      handle_tool_call-IsPermitted host id params name arguments p now app en ea
        (λ e. sent (ap (λ (w : World). gated w.sent) e)) in
    elim ((handler-Guards host (env_of host p now) arguments app.world permitted.spec.family
        name).guards
      app.world (record { sent = refl; confirm = refl })) [
        | inl same ↦ absurd (sent (ap (λ (w : World). gated w.sent) permitted.ran ∙ same))
        | inr confirmed ↦ confirmed
      ]
