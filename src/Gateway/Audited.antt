-- ===== src/Gateway/Audited.antt =====
-- The audit of tool calls. Code: `_handle_tool_call` and `_audit` of mcp_governance_gateway/mcp.py.
use mcp_governance_gateway.Base.{
  String, ◌≡◌, refl, sym, ◌∙◌, inl, none, inr, false, Option, some, List, ◌∷◌, Bool-cases,
  Option-cases,
}
use mcp_governance_gateway.Base.Dict.{get}
use mcp_governance_gateway.Base.Eq.{string_eq}
use mcp_governance_gateway.Errors.{
  Error, value_error, permission_error, auth_error, backend_error, key_error, key_store_error,
  type_error, attribute_error, overflow_error, Result, ok, err,
}
use mcp_governance_gateway.Principal.{Principal}
use mcp_governance_gateway.Value.{
  Value, str, Args, get_value, truthy, null, obj, arr, bool, int, float,
}
use mcp_governance_gateway.Policy.{PolicyDecision, allowed, decide}
use mcp_governance_gateway.Tools.Spec.{ToolSpec}
use mcp_governance_gateway.Tools.Registry.{specs_by_name}
use mcp_governance_gateway.Tools.Host.{World}
use mcp_governance_gateway.Gateway.{
  App, Moment, Deployment, dict_arg, env_of, attempt, event, caught, answered, finish, logged,
  allowed_call, audit_name, decided, named_call, handle_tool_call, handle_of,
}
use mcp_governance_gateway.Gateway.Event.{AuditEvent, dict_of, error_reply}
use mcp_governance_gateway.Base.Int.{negsuc}

module _ (host : Deployment) where
  -- The event tells who called what, and when.
  pub record Tells (name : String) (p : Principal) (now : Moment) (e : AuditEvent) : Type 0 where
    pub tool : e.tool ≡ audit_name host name
    pub actor : e.actor ≡ p.actor
    pub project : e.project ≡ p.project
    pub request_id : e.request_id ≡ now.request_id

  -- A reply comes with one new event, which tells of the call; an error that goes on with none.
  pub data IsLogged (name : String) (p : Principal) (now : Moment) (audit : List AuditEvent)
      : Result Value × App → Type 0 where
    replied :
        (reply : Value) (e : AuditEvent) (w : World)
        → Tells name p now e
        → IsLogged name p now audit (ok reply, record { world = w; audit = e ∷ audit })
    raised :
        (x : Error) (w : World)
        → IsLogged name p now audit (err x, record { world = w; audit = audit })

  -- The end of a call: a reply with an event that tells of it, or an error.
  abbrev IsTold : String → Principal → Moment → Result (Value × AuditEvent) → Type 0
  IsTold name p now (ok (reply, e)) = Tells name p now e
  IsTold name p now (err x) = Unit

  event-Tells :
      (tool name : String) (p : Principal) (now : Moment) (decision : PolicyDecision)
      (outcome : String) (handle : Value) (status : Option String)
      → tool ≡ audit_name host name
      → Tells name p now (event host tool p now decision outcome handle status)
  unfolding event
  event-Tells tool name p now decision outcome handle status h = record {
    tool = h;
    actor = refl;
    project = refl;
    request_id = refl;
  }

  module _ (id : Value) (name : String) (p : Principal) (now : Moment) (decision : PolicyDecision)
      (known : name ≡ audit_name host name) where
    caught-IsTold : (x : Error) → IsTold name p now (caught host x id name p now decision)
    unfolding caught
    caught-IsTold (value_error m) = event-Tells name name p now _ _ _ _ known
    caught-IsTold (permission_error m) = event-Tells name name p now _ _ _ _ known
    caught-IsTold (auth_error m) = tt
    caught-IsTold (backend_error m status) = event-Tells name name p now _ _ _ _ known
    caught-IsTold (key_store_error m) = tt
    caught-IsTold key_error = tt
    caught-IsTold type_error = tt
    caught-IsTold attribute_error = tt
    caught-IsTold overflow_error = tt

    answered-IsTold :
        (result : Value) (spec : ToolSpec)
        → IsTold name p now (answered host result id name spec p now decision)
    unfolding answered
    answered-IsTold result spec =
        elim (Bool-cases (truthy (get_value (dict_of result) "confirmationRequired"))) [
          | inl e ↦ rw (answered, e) (event-Tells name name p now _ _ _ _ known)
          | inr e ↦ go e (handle_of host.base.rt spec result) refl
        ]
      where
        go :
            truthy (get_value (dict_of result) "confirmationRequired") ≡ false
            → (r : Result Value) → handle_of host.base.rt spec result ≡ r
            → IsTold name p now (answered host result id name spec p now decision)
        go e (ok handle) h = rw (answered, e, h) (event-Tells name name p now _ _ _ _ known)
        go e (err x) h = rw (answered, e, h) tt

    finish-IsTold :
        (r : Result Value) (spec : ToolSpec)
        → IsTold name p now (finish host r id name spec p now decision)
    unfolding finish
    finish-IsTold (ok result) spec = answered-IsTold result spec
    finish-IsTold (err x) spec = caught-IsTold x

  logged-IsLogged :
      (name : String) (p : Principal) (now : Moment) (r : Result (Value × AuditEvent)) (w : World)
      (audit : List AuditEvent)
      → IsTold name p now r
      → IsLogged name p now audit (logged host r w audit)
  logged-IsLogged name p now (ok (reply, e)) w audit h = IsLogged.replied reply e w h
  logged-IsLogged name p now (err x) w audit h = IsLogged.raised x w

  known-audit_name :
      (name : String) (spec : ToolSpec)
      → get name specs_by_name ≡ some spec
      → name ≡ audit_name host name
  unfolding audit_name
  known-audit_name name spec h = rw (audit_name, h)

  allowed_call-IsLogged :
      (id : Value) (name : String) (arguments : Args) (spec : ToolSpec) (p : Principal)
      (now : Moment) (decision : PolicyDecision) (app : App)
      → get name specs_by_name ≡ some spec
      → IsLogged name p now app.audit (allowed_call host id name arguments spec p now decision app)
  unfolding allowed_call
  allowed_call-IsLogged id name arguments spec p now decision app known =
      logged-IsLogged name p now _ _ app.audit (
        finish-IsTold id name p now decision (known-audit_name name spec known)
          (attempt host (env_of host p now) spec arguments name app.world).0 spec)

  decided-IsLogged :
      (id : Value) (name : String) (arguments : Args) (p : Principal) (now : Moment)
      (decision : PolicyDecision) (app : App)
      → IsLogged name p now app.audit (decided host id name arguments p now decision app)
  unfolding decided
  decided-IsLogged id name arguments p now decision app = elim (Bool-cases (allowed decision)) [
    | inr denied ↦
        rw (decided, denied)
          (IsLogged.replied _ _ _
            (event-Tells (audit_name host name) name p now decision _ _ _ refl))
    | inl allow ↦ elim (Option-cases (get name specs_by_name)) [
      | inl unknown ↦ rw (decided, allow, unknown) (IsLogged.raised key_error app.world)
      | inr (spec, known) ↦
          rw (decided, allow, known)
            (allowed_call-IsLogged id name arguments spec p now decision app known)
    ]
  ]

  named_call-IsLogged :
      (id : Value) (name : String) (arguments : Args) (p : Principal) (now : Moment) (app : App)
      → IsLogged name p now app.audit (named_call host id name arguments p now app)
  unfolding named_call
  named_call-IsLogged id name arguments p now app = go (decide specs_by_name name p) refl
    where
      go :
          (r : Result PolicyDecision)
          → decide specs_by_name name p ≡ r
          → IsLogged name p now app.audit (named_call host id name arguments p now app)
      go (err x) e = rw (named_call, e) (IsLogged.raised x app.world)
      go (ok decision) e =
          rw (named_call, e) (decided-IsLogged id name arguments p now decision app)

-- What becomes of `tools/call`: of one with a name and a dict of arguments, a log; any other is
-- refused without an event and without a change.
pub data IsAnswered (host : Deployment) (id : Value) (params : Args) (p : Principal) (now : Moment)
    (app : App) : Result Value × App → Type 0 where
  called :
      (name : String) (arguments : Args) (out : Result Value × App)
      → get_value params "name" ≡ str name
      → dict_arg (get_value params "arguments") ≡ some arguments
      → IsLogged host name p now app.audit out
      → IsAnswered host id params p now app out
  malformed :
      ((name : String) (arguments : Args)
        → get_value params "name" ≡ str name
        → dict_arg (get_value params "arguments") ≡ some arguments
        → ⊥)
      → IsAnswered host id params p now app
          (ok (error_reply id (negsuc 32_601) "Invalid tool call params"), app)

-- A tool call with a name and a dict of arguments that gets a reply, be it an answer, a request for
-- a confirmation, a denial or an error of the tool, leaves one new audit event, behind the old ones:
-- with the caller's actor and project, the gateway's request id, and the tool's name, or "unknown"
-- for a name that is not registered; one that ends in an error of another class leaves none. Any
-- other call is refused for its parameters, leaves no event and changes nothing.
pub handle_tool_call-audits :
    (host : Deployment) (id : Value) (params : Args) (p : Principal) (now : Moment) (app : App)
    → IsAnswered host id params p now app (handle_tool_call host id params p now app)
unfolding handle_tool_call
handle_tool_call-audits host id params p now app = go (get_value params "name") refl
  where
    Answered : Result Value × App → Type 0
    Answered out = IsAnswered host id params p now app out

    refused : Result Value × App
    refused = (ok (error_reply id (negsuc 32_601) "Invalid tool call params"), app)

    given :
        (name : String)
        → get_value params "name" ≡ str name
        → (o : Option Args) → dict_arg (get_value params "arguments") ≡ o
        → Answered (elim o [
          | some arguments ↦ named_call host id name arguments p now app
          | none ↦ refused
        ])
    given name en (some arguments) ea =
        IsAnswered.called name arguments _ en ea
          (named_call-IsLogged host id name arguments p now app)
    given name en none ea =
        IsAnswered.malformed (λ n as_dict en2 ea2. no_dict as_dict (sym ea ∙ ea2))
      where
        no_dict : (arguments : Args) → ◌≡◌ {A = Option Args} none (some arguments) → ⊥
        no_dict arguments h = cc

    named :
        (v : Value)
        → get_value params "name" ≡ v
        → ((name : String) → v ≡ str name → ⊥)
        → Answered refused
    named v en other = IsAnswered.malformed (λ name arguments h k. other name (sym en ∙ h))

    go :
        (v : Value)
        → get_value params "name" ≡ v
        → Answered (elim v [
          | str name ↦ elim (dict_arg (get_value params "arguments")) [
            | some arguments ↦ named_call host id name arguments p now app
            | none ↦ refused
          ]
          | _ ↦ refused
        ])
    go (str name) en = given name en (dict_arg (get_value params "arguments")) refl
    go null en = named _ en (λ name h. cc)
    go (obj fs) en = named _ en (λ name h. cc)
    go (arr vs) en = named _ en (λ name h. cc)
    go (bool b) en = named _ en (λ name h. cc)
    go (int n) en = named _ en (λ name h. cc)
    go (float x) en = named _ en (λ name h. cc)
