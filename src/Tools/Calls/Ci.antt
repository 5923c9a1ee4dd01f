-- ===== src/Tools/Calls/Ci.antt =====
-- The CI family's handler. Code: `call` of mcp_governance_gateway/tools/ci.py.
use mcp_governance_gateway.Base.{String, ◌<>◌, Option, none, some, [], ◌∷◌, if◌then◌else◌, is_some}
use mcp_governance_gateway.Base.Int.{ℤ, pos}
use mcp_governance_gateway.Base.Eq.{◌==◌, string_eq}
use mcp_governance_gateway.Errors.{value_error, backend_error, Result, ok, err}
use mcp_governance_gateway.Value.{Value, str, Args, show_ℤ}
use mcp_governance_gateway.Tools.Args.{required_text, optional_text, optional_int}
use mcp_governance_gateway.Tools.Calls.Values.{text_or_null, int_or_null, same_bool}
use mcp_governance_gateway.Tools.Host.{
  Method, Env, M, ◌>>◌, lift, send, enforce_read_quota, confirmation_gate, confirmed_then, ◌>>=◌,
}

-- _BUILD_MAX
abbrev pub build_max : ℤ
build_max = pos 1_000_000_000

unfoldable pub target : Option ℤ → Option ℤ → String
unfolding show_ℤ
target none none = "build None"
target none (some build) = "build " <> show_ℤ build
target (some item) build = "queue item " <> show_ℤ item

module _ (env : Env) (arguments : Args) where
  unfoldable pub log : M Value
  unfolding lift send required_text optional_int
  log = do
    job ← lift (required_text arguments "job" 200)
    lines ← lift (optional_int arguments "lines" (pos 1) (pos 1_000))
    send env Method.ci_log (str job ∷ int_or_null lines ∷ [])

  unfoldable pub builds : M Value
  unfolding lift send optional_text optional_int
  builds = do
    job_filter ← lift (optional_text arguments "job" 200)
    count ← lift (optional_int arguments "count" (pos 1) (pos 50))
    send env Method.ci_builds (text_or_null job_filter ∷ int_or_null count ∷ [])

  unfoldable pub artifact : M Value
  unfolding lift send required_text optional_int
  artifact = do
    job ← lift (required_text arguments "job" 200)
    build ← lift (optional_int arguments "build" (pos 1) build_max)
    send env Method.ci_artifacts (str job ∷ int_or_null build ∷ [])

  -- `if (queue_item is None) == (build is None): raise`
  unfoldable pub exactly_one : Option ℤ → Option ℤ → Result (Unit {0})
  exactly_one queue_item build =
      if same_bool (is_some queue_item) (is_some build)
      then err (value_error "pass exactly one of queueItem or build")
      else ok tt

  unfoldable pub stop : M Value
  unfolding lift send required_text optional_int exactly_one confirmation_gate confirmed_then target
  stop = do
    job ← lift (required_text arguments "job" 200)
    queue_item ← lift (optional_int arguments "queueItem" (pos 1) build_max)
    build ← lift (optional_int arguments "build" (pos 1) build_max)
    one ← lift (exactly_one queue_item build)
    triggerable ← send env Method.ci_require_triggerable (str job ∷ [])
    confirmed_then
        (confirmation_gate env "ci.stop"
          (("job", str job)
            ∷ ("queueItem", int_or_null queue_item)
            ∷ ("build", int_or_null build)
            ∷ [])
          arguments ("Stop CI job " <> env.rt.repr job <> ", " <> target queue_item build))
        (send env Method.ci_stop (str job ∷ int_or_null queue_item ∷ int_or_null build ∷ []))

  unfoldable pub rerun : M Value
  unfolding lift send required_text confirmation_gate confirmed_then
  rerun = do
    job ← lift (required_text arguments "job" 200)
    triggerable ← send env Method.ci_require_triggerable (str job ∷ [])
    confirmed_then
        (confirmation_gate env "ci.rerun" (("job", str job) ∷ []) arguments
          ("Start a CI build of " <> env.rt.repr job))
        (send env Method.ci_rerun (str job ∷ []))

  -- `call` behind the quota.
  unfoldable pub dispatch : String → M Value
  unfolding log builds artifact stop rerun lift send
  dispatch name =
      if name == "ci.status"
      then send env Method.ci_status []
      else if name == "ci.log"
      then log
      else if name == "ci.builds"
      then builds
      else if name == "ci.artifact"
      then artifact
      else if name == "ci.stop"
      then stop
      else if name == "ci.rerun"
      then rerun
      else lift (err (value_error ("Unknown ci tool: " <> name)))

  unfoldable pub call : String → M Value
  unfolding dispatch enforce_read_quota lift
  call name =
      if env.has_ci
      then (enforce_read_quota env >> dispatch name)
      else lift (err (backend_error "CI is not enabled on this gateway" (some 404)))
