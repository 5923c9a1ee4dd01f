-- ===== src/Review/Service.antt =====
-- Proposals under the caller's own credential. Code: `DocsReviewService` of
-- mcp_governance_gateway/docs_review.py. A review host's adapter is a backend of the environment.
pub mod Credential
use mcp_governance_gateway.Base.{
  String, ◌<>◌, Bool, not, Option, none, some, List, [], ◌∷◌, if◌then◌else◌, is_some,
}
use mcp_governance_gateway.Base.Int.{ℤ}
use mcp_governance_gateway.Base.Dict.{put, update as updated}
use mcp_governance_gateway.Base.Text.{is_empty, strip}
use mcp_governance_gateway.Base.Eq.{string_eq, contains}
use mcp_governance_gateway.Errors.{backend_error, Result, ok, err}
use mcp_governance_gateway.Value.{Value, null, int, str, obj, entries, dict}
use mcp_governance_gateway.Keystore.{KeyState, key_ok, undecryptable, degraded, missing}
use mcp_governance_gateway.Review.{ReviewSpec, backend_key, stamped, require_servable}
use mcp_governance_gateway.Tools.Host.{Method, Env, M, ◌>>=◌, ◌>>◌, lift, send, send_review}

-- {"path": path, **result, "status": "proposed"}; each adapter returns a dict.
unfoldable pub proposed : String → Value → Value
unfolding updated put entries dict
proposed path (obj fs) =
    dict (put "status" (str "proposed") (updated (("path", str path) ∷ []) (entries fs)))
proposed path _ = dict (("path", str path) ∷ ("status", str "proposed") ∷ [])

module _ (env : Env) where
  unfoldable pub spec_for : String → Option ReviewSpec
  spec_for project = if is_empty project then none else env.review_specs project

  unfoldable pub has_project : String → Bool
  unfolding spec_for
  has_project project = is_some (spec_for project)

  -- f" ({self._portal})" if self._portal else ""
  unfoldable pub hint : String
  hint = elim env.portal [ none ↦ "" | some url ↦ if is_empty url then "" else " (" <> url <> ")" ]

  abbrev pub not_enrolled : ReviewSpec → Result String
  not_enrolled spec = err (
      backend_error
        ("proposing a document change is done under your own identity on the review host, so it needs your own credential -- there is no shared account to fall back to. Enroll a token scoped to "
          <> env.rt.repr spec.repo
          <> " ALONE with Contents: read/write and Pull requests: read/write, and nothing else -- not admin, not workflow: that is all these tools use, and a broader token can merge its own proposals"
          <> hint)
        (some 428))

  -- The ladder of `_credential`, on what the resolver answers.
  unfoldable pub usable : ReviewSpec → KeyState × Option String → Result String
  unfolding hint
  usable spec (degraded, personal) = err (
      backend_error
        "the credential store is temporarily unusable, so the gateway cannot act as you on the review host. Proposing under a shared account would put someone else's name on your change. Re-enrolling is not the fix -- operators can see this on /healthz"
        (some 503))
  usable spec (undecryptable, personal) = err (
      backend_error
        ("your credential for the review host could not be decrypted (the keystore may have been rotated); please re-enroll it"
          <> hint)
        (some 409))
  usable spec (key_ok, some personal) = if is_empty personal then not_enrolled spec else ok personal
  usable spec (key_ok, none) = not_enrolled spec
  usable spec (missing, personal) = not_enrolled spec

  unfoldable pub credential : ReviewSpec → Result String
  unfolding usable hint
  credential spec = elim env.key_resolver [
    | none ↦ err (
        backend_error
          ("proposing a document change needs your own credential for the review host, and this gateway has no credential store configured"
            <> hint)
          (some 428))
    | some resolver ↦ usable spec (resolver env.context.actor (backend_key spec))
  ]

  abbrev pub with_spec : ReviewSpec → Result String → Result (ReviewSpec × String)
  with_spec spec (ok own) = ok (spec, own)
  with_spec spec (err e) = err e

  unfoldable pub resolve : Result (ReviewSpec × String)
  unfolding spec_for credential
  resolve = elim (spec_for env.context.project) [
    | none ↦ err (
        backend_error "this project's docs corpus is read-only: no review host is configured for it"
          (some 404))
    | some spec ↦
        if contains spec.type env.review_hosts
        then with_spec spec (credential spec)
        else err (
            backend_error
              ("this gateway has no adapter for review host type " <> env.rt.repr spec.type)
              (some 503))
  ]

  -- A host's method, under what `_resolve` gives.
  unfoldable pub resolved : Method → List Value → M Value
  unfolding resolve lift send_review
  resolved method values = do found ← lift resolve; send_review env found.0 found.1 method values

  -- `try: self._corpus.get(...) except Exception: return`, and the refusal.
  unfoldable pub refuse_if_present : String → M (Unit {0})
  unfolding send
  refuse_if_present path w =
      let (found, w') = send env Method.docs_get (str path ∷ []) w in
      elim found [
        | err e ↦ (ok tt, w')
        | ok document ↦ (
          err (
              backend_error
                (path
                  <> " already exists in this project's corpus; use docs.update to propose a change to it")
                (some 409)),
          w',
        )
      ]

  unfoldable pub create : String → String → String → M Value
  unfolding resolve lift require_servable refuse_if_present send_review proposed
  create path content message = do
    found ← lift resolve
    servable ← lift (require_servable env.rt path)
    absent ← refuse_if_present path
    result ←
        send_review env found.0 found.1 Method.review_open_change
          (str path ∷ str content ∷ str message ∷ [])
    lift (ok (proposed path result))

  unfoldable pub update : String → String → String → String → M Value
  unfolding resolve lift require_servable send_review proposed
  update path content message base_sha = do
    found ← lift resolve
    servable ← lift (require_servable env.rt path)
    result ←
        send_review env found.0 found.1 Method.review_update_change
          (str path ∷ str content ∷ str message ∷ str base_sha ∷ [])
    lift (ok (proposed path result))

  unfoldable pub comment : ℤ → String → M Value
  unfolding resolved stamped
  comment change_ref body =
      resolved Method.review_comment (int change_ref ∷ str (stamped body env.context) ∷ [])

  unfoldable pub get_change : ℤ → M Value
  unfolding resolved
  get_change change_ref = resolved Method.review_get_change (int change_ref ∷ [])

  unfoldable pub list_changes : ℤ → M Value
  unfolding resolved
  list_changes limit = resolved Method.review_list_changes (int limit ∷ [])

  unfoldable pub add_reviewer : ℤ → String → M Value
  unfolding resolved
  add_reviewer change_ref reviewer =
      resolved Method.review_add_reviewer (int change_ref ∷ str reviewer ∷ [])

  -- stamped(message, context) if message and message.strip() else None
  unfoldable pub closing : Option String → Value
  unfolding stamped strip
  closing none = null
  closing (some message) =
      if is_empty (strip message) then null else str (stamped message env.context)

  unfoldable pub abandon : ℤ → Option String → M Value
  unfolding resolved closing
  abandon change_ref message =
      resolved Method.review_close_change (int change_ref ∷ closing message ∷ [])
