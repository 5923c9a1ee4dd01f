-- ===== src/Tools/Host.antt =====
-- What a tool handler may ask of the gateway. Code: `ToolHost` of
-- mcp_governance_gateway/tools/base.py, and `confirmation_gate`, `enforce_read_quota` and
-- `_echo_args` of mcp_governance_gateway/mcp.py, `_take_write_quota` of
-- mcp_governance_gateway/tools/memory.py.
pub mod Echo
use mcp_governance_gateway.Base.{
  ℕ, String, Bool, true, false, Option, none, some, List, [], ◌∷◌, if◌then◌else◌,
}
use mcp_governance_gateway.Base.Dict.{put}
use mcp_governance_gateway.Base.Eq.{string_eq}
use mcp_governance_gateway.Errors.{permission_error, Result, ok, err}
use mcp_governance_gateway.Principal.{Principal, RequestContext}
use mcp_governance_gateway.Runtime.{Runtime}
use mcp_governance_gateway.Value.{Value, bool, str, Args, get_value, dict}
use mcp_governance_gateway.Limits.{
  MemoryLimitConfig, Limiter, LimitDecision, check_read, check_and_record,
}
use mcp_governance_gateway.DocsAssets.{AssetStage, release, consume}
use mcp_governance_gateway.Keystore.{KeyState}
use mcp_governance_gateway.Review.{ReviewSpec}
use mcp_governance_gateway.Confirm as Confirm
use mcp_governance_gateway.Confirm.{Store, verify, issue}
use mcp_governance_gateway.Tools.Host.Echo.{echo}

-- The methods of the backend interfaces that the handlers call.
pub data Method : Type 0 where
  memory_search memory_save memory_list memory_lesson_save memory_lesson_list : Method
  memory_action_create memory_action_list memory_action_update_status : Method
  issues_get issues_search issues_mine issues_categories : Method
  issues_create issues_add_note issues_update_status : Method
  ci_status ci_log ci_builds ci_artifacts ci_require_triggerable ci_stop ci_rerun : Method
  docs_search docs_get docs_list docs_lint : Method
  review_open_change review_update_change review_comment review_get_change : Method
  review_list_changes review_add_reviewer review_close_change : Method

-- The methods that ADR-0003 puts behind a confirmation.
unfoldable pub is_gated : Method → Bool
is_gated Method.issues_create = true
is_gated Method.issues_add_note = true
is_gated Method.issues_update_status = true
is_gated Method.ci_stop = true
is_gated Method.ci_rerun = true
is_gated Method.review_open_change = true
is_gated Method.review_update_change = true
is_gated Method.review_comment = true
is_gated Method.review_add_reviewer = true
is_gated Method.review_close_change = true
is_gated _ = false

-- A call of a backend, with its arguments in the method's order. A call of a review host has the
-- host's spec and the credential that it is made under.
pub record Request : Type 0 where
  pub method : Method
  pub review : Option (ReviewSpec × String)
  pub values : List Value
  pub context : RequestContext

-- What the handlers share and change. `sent` holds the calls of backends, the newest first.
pub record World : Type 0 where
  pub confirm : Store
  pub limiter : Limiter
  pub sent : List Request
  pub assets : AssetStage

-- A tool call's surroundings. `answer` is what a backend answers to a request after those that were
-- sent before; the times are the readings of the clock by the quota, by `verify`, by `issue`, and by
-- the first and the second use of the staged content. `drawn_id` and `drawn_token` are the texts
-- that `secrets` draws for an upload. The docs review has the specs of the projects that its corpus
-- knows, the types of host that it has an adapter for, and the lookup of credentials.
pub record Env : Type 0 where
  pub rt : Runtime
  pub confirm_config : Confirm.Config
  pub limit_config : MemoryLimitConfig
  pub answer : List Request → Request → Result Value
  pub has_issues : Bool
  pub has_ci : Bool
  pub has_docs : Bool
  pub has_review : Bool
  pub has_stage : Bool
  pub asset_base_url : String
  pub review_specs : String → Option ReviewSpec
  pub review_hosts : List String
  pub key_resolver : Option (String → String → KeyState × Option String)
  pub portal : Option String
  pub principal : Principal
  pub context : RequestContext
  pub quota_at : ℕ
  pub verified_at : ℕ
  pub issued_at : ℕ
  pub nonce : String
  pub staged_at : ℕ
  pub claimed_at : ℕ
  pub drawn_id : String
  pub drawn_token : String

-- A step of a handler: it changes the world, and returns or raises.
abbrev pub M : Type 0 → Type 0
M A = World → Result A × World

infixl 5 ◌>>=◌ ◌>>◌
unfoldable pub ◌>>=◌ : {A B : Type 0} → M A → (A → M B) → M B
(m >>= f) w = let (r, w') = m w in elim r [ ok a ↦ f a w' | err e ↦ (err e, w') ]

abbrev pub ◌>>◌ : {B : Type 0} → M (Unit {0}) → M B → M B
m >> k = m >>= λ _. k

-- Code that touches no state.
unfoldable pub lift : {A : Type 0} → Result A → M A
lift r w = (r, w)

-- A method of the staged content.
unfoldable pub staged : {A : Type 0} → (AssetStage → Result A × AssetStage) → M A
staged f w = let (r, assets) = f w.assets in (r, record w { assets = assets })

-- `with stage.claim(...) as body: ...`: a block that raises releases the body, one that returns
-- consumes it.
unfoldable pub with_claim : String → M String → (String → M Value) → M Value
unfolding release consume
with_claim id claim block w =
    let (claimed, w') = claim w in
    elim claimed [
      | err e ↦ (err e, w')
      | ok body ↦
          let (result, after) = block body w' in
          elim result [
            | err e ↦ (err e, record after { assets = release id after.assets })
            | ok value ↦ (ok value, record after { assets = consume id after.assets })
          ]
    ]

-- `if not quota.allowed: raise PermissionError(quota.reason)`
unfoldable pub allow_quota : LimitDecision → Result (Unit {0})
allow_quota quota = if quota.allowed then ok tt else err (permission_error quota.reason)

module _ (env : Env) where
  unfoldable pub send_request : Request → M Value
  send_request request w = (env.answer w.sent request, record w { sent = request ∷ w.sent })

  -- A call of a backend's method.
  unfoldable pub send : Method → List Value → M Value
  unfolding send_request
  send method values =
      send_request
        (record { method = method; review = none; values = values; context = env.context })

  -- A call of a review host under a credential.
  unfoldable pub send_review : ReviewSpec → String → Method → List Value → M Value
  unfolding send_request
  send_review spec credential method values = send_request (record {
    method = method;
    review = some (spec, credential);
    values = values;
    context = env.context;
  })

  unfoldable pub enforce_read_quota : M (Unit {0})
  unfolding allow_quota
  enforce_read_quota w =
      let (quota, limiter) = check_read env.limit_config w.limiter env.principal env.quota_at in
      (allow_quota quota, record w { limiter = limiter })

  unfoldable pub take_write_quota : String → M (Unit {0})
  unfolding allow_quota
  take_write_quota text w =
      let (quota, limiter) =
        check_and_record env.limit_config w.limiter env.principal text env.quota_at in
      (allow_quota quota, record w { limiter = limiter })

  -- `if fail_reason is not None: response["confirmError"] = fail_reason`
  unfoldable pub with_reason : Option String → Args → Args
  unfolding put
  with_reason none response = response
  with_reason (some reason) response = put "confirmError" (str reason) response

  unfoldable pub response : String → Args → String → String → Option String → Value
  unfolding with_reason
  response name semantic summary id fail_reason = dict (
      with_reason fail_reason (
        ("confirmationRequired", bool true)
        ∷ ("confirmationId", str id)
        ∷ ("action", str name)
        ∷ ("arguments", echo env.rt (dict semantic))
        ∷ ("summary", str summary)
        ∷ (
          "instructions",
          str
              "Re-call this tool with the arguments you sent — UNABRIDGED; long text is digested in the echo above for display only, and the confirmation is bound to the full value — plus \"confirm\": \"<confirmationId>\" to proceed.",
        )
        ∷ []))

  -- The second half of the gate: a new id, and the payload that carries it.
  unfoldable pub ask : String → Args → String → Option String → M (Option Value)
  unfolding response
  ask name semantic summary fail_reason w =
      let (issued, confirm) =
        issue env.rt env.confirm_config env.principal name semantic env.issued_at env.nonce
          w.confirm in
      (
        elim issued [
          | ok id ↦ ok (some (response name semantic summary id fail_reason))
          | err e ↦ err e
        ],
        record w { confirm = confirm },
      )

  unfoldable pub confirmation_gate : String → Args → Args → String → M (Option Value)
  unfolding ask get_value
  confirmation_gate name semantic arguments summary w =
      let ((confirmed, fail_reason), confirm) =
        verify env.rt env.confirm_config env.principal name semantic (get_value arguments "confirm")
          env.verified_at w.confirm in
      let w' = record w { confirm = confirm } in
      if confirmed then (ok none, w') else ask name semantic summary fail_reason w'

-- `if pending is not None: return pending`, and then the rest.
unfoldable pub confirmed_then : M (Option Value) → M Value → M Value
unfolding ◌>>=◌ lift
confirmed_then gate rest =
    gate >>= λ pending. elim pending [ some payload ↦ lift (ok payload) | none ↦ rest ]
