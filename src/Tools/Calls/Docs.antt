-- ===== src/Tools/Calls/Docs.antt =====
-- The docs family's handler. Code: `call` of mcp_governance_gateway/tools/docs.py.
use mcp_governance_gateway.Base.{
  String, ◌<>◌, Bool, not, ◌&&◌, ◌||◌, Option, none, some, [], ◌∷◌, if◌then◌else◌, is_some,
}
use mcp_governance_gateway.Base.Int.{ℤ, pos}
use mcp_governance_gateway.Base.Dict.{get}
use mcp_governance_gateway.Base.Eq.{◌==◌, string_eq}
use mcp_governance_gateway.Base.Text.{starts_with}
use mcp_governance_gateway.Errors.{value_error, backend_error, Result, ok, err}
use mcp_governance_gateway.Value.{Value, int, str, Args, get_value, show_ℤ}
use mcp_governance_gateway.SecretScan.{find_secret, reject_secret}
use mcp_governance_gateway.DocsAssets.{Owner, mint_upload_url, peek, claim, AssetStage}
use mcp_governance_gateway.Review.Service as Service
use mcp_governance_gateway.Tools.Args.{
  required_text, optional_text, limit, optional_int, required_change_ref,
}
use mcp_governance_gateway.Tools.Calls.Values.{put_text}
use mcp_governance_gateway.Tools.Host.{
  Method, Env, M, ◌>>=◌, ◌>>◌, lift, send, staged, with_claim, enforce_read_quota,
  confirmation_gate, confirmed_then,
}

-- What a proposal carries: where its body is, and the body.
pub record Draft : Type 0 where
  pub path : String
  pub staged_id : Option String
  pub content : String
  pub message : String
  pub base_sha : Option String

abbrev pub int_or : Option ℤ → ℤ → ℤ
int_or none default = default
int_or (some n) default = n

-- `message or ""`, as the scan reads it.
abbrev pub text_or_empty : Option String → String
text_or_empty none = ""
text_or_empty (some s) = s

module _ (env : Env) (arguments : Args) where
  unfoldable pub has_argument : String → Bool
  unfolding get
  has_argument key = is_some (get key arguments)

  abbrev pub owner : Owner
  owner = record {
    actor = env.context.actor;
    project = env.context.project;
    token_id = env.principal.token_id;
  }

  unfoldable pub search : M Value
  unfolding lift send required_text limit get_value
  search = do
    query ← lift (required_text arguments "query" 512)
    top ← lift (limit (get_value arguments "limit") (pos 8))
    send env Method.docs_search (str query ∷ int top ∷ [])

  unfoldable pub get_document : M Value
  unfolding lift send required_text
  get_document = do
    path ← lift (required_text arguments "path" 500)
    send env Method.docs_get (str path ∷ [])

  unfoldable pub review_get : M Value
  unfolding lift required_change_ref Service.get_change
  review_get = do
    change_ref ← lift (required_change_ref arguments)
    Service.get_change env change_ref

  unfoldable pub review_list : M Value
  unfolding lift optional_int Service.list_changes
  review_list = do
    top ← lift (optional_int arguments "limit" (pos 1) (pos 50))
    Service.list_changes env (int_or top (pos 20))

  unfoldable pub review_add_reviewer : M Value
  unfolding lift required_text required_change_ref confirmation_gate confirmed_then
      Service.add_reviewer
  review_add_reviewer = do
    reviewer ← lift (required_text arguments "reviewer" 39)
    change_ref ← lift (required_change_ref arguments)
    confirmed_then
        (confirmation_gate env "docs.review_add_reviewer"
          (("change", int change_ref) ∷ ("reviewer", str reviewer) ∷ []) arguments
          ("Request review from " <> env.rt.repr reviewer <> " on proposal #" <> show_ℤ change_ref))
        (Service.add_reviewer env change_ref reviewer)

  unfoldable pub review_abandon : M Value
  unfolding lift optional_text required_change_ref find_secret reject_secret put_text
      confirmation_gate confirmed_then Service.abandon
  review_abandon = do
    change_ref ← lift (required_change_ref arguments)
    message ← lift (optional_text arguments "message" 20_000)
    lift (reject_secret (find_secret env.rt (some (text_or_empty message) ∷ [])))
    confirmed_then
        (confirmation_gate env "docs.review_abandon"
          (put_text "message" message (("change", int change_ref) ∷ [])) arguments
          ("Withdraw your proposal #" <> show_ℤ change_ref))
        (Service.abandon env change_ref message)

  unfoldable pub review_comment : M Value
  unfolding lift required_text required_change_ref find_secret reject_secret confirmation_gate
      confirmed_then Service.comment
  review_comment = do
    change_ref ← lift (required_change_ref arguments)
    body ← lift (required_text arguments "body" 20_000)
    lift (reject_secret (find_secret env.rt (some body ∷ [])))
    confirmed_then
        (confirmation_gate env "docs.review_comment"
          (("change", int change_ref) ∷ ("body", str body) ∷ []) arguments
          ("Comment on proposal #" <> show_ℤ change_ref))
        (Service.comment env change_ref body)

  -- args.required_text(arguments, "kind", max_len=16) if "kind" in arguments else "content"
  unfoldable pub kind_argument : Result String
  unfolding has_argument required_text
  kind_argument = if has_argument "kind" then required_text arguments "kind" 16 else ok "content"

  -- stage.mint_upload_url for the caller.
  unfoldable pub minting : String → AssetStage → Result Value × AssetStage
  unfolding mint_upload_url
  minting kind =
      mint_upload_url env.asset_base_url owner kind env.staged_at env.drawn_id env.drawn_token

  unfoldable pub asset_stage_url : M Value
  unfolding lift staged minting Service.has_project kind_argument
  asset_stage_url =
      if not (Service.has_project env env.context.project) || not env.has_stage
      then lift (err (backend_error "staged content is not configured for this project" (some 404)))
      else do kind ← lift kind_argument; staged (minting kind)

  -- The body that a staged id names.
  unfoldable pub staged_content : String → M String
  unfolding lift staged peek starts_with
  staged_content staged_id =
      if not (starts_with staged_id "doc_")
      then lift (
          err (
            value_error
              "contentStaged must be a doc_ id from docs.asset_stage_url(kind='content')"))
      else if not env.has_stage
      then lift (err (backend_error "staged content is not configured on this gateway" (some 404)))
      else staged (peek staged_id owner env.staged_at)

  -- Where the body is, and the body.
  unfoldable pub content_argument : M (Option String × String)
  unfolding lift required_text has_argument staged_content
  content_argument =
      if has_argument "contentStaged" && has_argument "content"
      then lift (err (value_error "pass content OR contentStaged, not both"))
      else if has_argument "contentStaged"
      then (do
        staged_id ← lift (required_text arguments "contentStaged" 64)
        content ← staged_content staged_id
        lift (ok (some staged_id, content)))
      else (do
        content ← lift (required_text arguments "content" 200_000)
        lift (ok (none, content)))

  abbrev pub some_text : Result String → Result (Option String)
  some_text (ok s) = ok (some s)
  some_text (err e) = err e

  unfoldable pub sha_argument : String → Result (Option String)
  unfolding required_text
  sha_argument name =
      if name == "docs.update" then some_text (required_text arguments "sha" 64) else ok none

  -- {"path": path, "message": message, **({"contentStaged": ...} or {"content": ...})}, and "sha".
  unfoldable pub proposal_semantic : Draft → Args
  unfolding put_text
  proposal_semantic draft =
      let body : Args = elim draft.staged_id [
        | some staged_id ↦ ("contentStaged", str staged_id) ∷ []
        | none ↦ ("content", str draft.content) ∷ []
      ] in
      put_text "sha" draft.base_sha
        (("path", str draft.path) ∷ ("message", str draft.message) ∷ body)

  -- `propose`
  unfoldable pub propose : Draft → String → M Value
  unfolding Service.create Service.update
  propose draft body = elim draft.base_sha [
    | none ↦ Service.create env draft.path body draft.message
    | some base_sha ↦ Service.update env draft.path body draft.message base_sha
  ]

  unfoldable pub propose_body : Draft → M Value
  unfolding propose with_claim staged claim
  propose_body draft = elim draft.staged_id [
    | none ↦ propose draft draft.content
    | some staged_id ↦
        with_claim staged_id (staged (claim staged_id owner env.claimed_at)) (propose draft)
  ]

  unfoldable pub propose_document : String → M Value
  unfolding lift required_text content_argument find_secret reject_secret sha_argument
      proposal_semantic propose_body confirmation_gate confirmed_then
  propose_document name = do
    path ← lift (required_text arguments "path" 500)
    body ← content_argument
    message ← lift (required_text arguments "message" 255)
    lift (reject_secret (find_secret env.rt (some path ∷ some body.1 ∷ some message ∷ [])))
    base_sha ← lift (sha_argument name)
    let draft : Draft = record {
      path = path;
      staged_id = body.0;
      content = body.1;
      message = message;
      base_sha = base_sha;
    }
    confirmed_then
        (confirmation_gate env name (proposal_semantic draft) arguments
          ("Propose a document change to " <> env.rt.repr path))
        (propose_body draft)

  -- `call` with a review host.
  unfoldable pub dispatch_review : String → M Value
  unfolding review_get review_list review_add_reviewer review_abandon review_comment asset_stage_url
      propose_document lift
  dispatch_review name =
      if name == "docs.review_get"
      then review_get
      else if name == "docs.review_list"
      then review_list
      else if name == "docs.review_add_reviewer"
      then review_add_reviewer
      else if name == "docs.review_abandon"
      then review_abandon
      else if name == "docs.asset_stage_url"
      then asset_stage_url
      else if (name == "docs.create") || (name == "docs.update")
      then propose_document name
      else if name == "docs.review_comment"
      then review_comment
      else lift (err (value_error ("Unknown docs tool: " <> name)))

  unfoldable pub review_or_raise : String → M Value
  unfolding dispatch_review lift
  review_or_raise name =
      if env.has_review
      then dispatch_review name
      else lift (
          err (
            backend_error
              "this project's docs corpus is read-only: no review host is configured for it"
              (some 404)))

  -- `call` behind the quota.
  unfoldable pub dispatch : String → M Value
  unfolding search get_document review_or_raise send
  dispatch name =
      if name == "docs.search"
      then search
      else if name == "docs.get"
      then get_document
      else if name == "docs.list"
      then send env Method.docs_list []
      else if name == "docs.lint"
      then send env Method.docs_lint []
      else review_or_raise name

  unfoldable pub call : String → M Value
  unfolding dispatch enforce_read_quota lift
  call name =
      if env.has_docs
      then (enforce_read_quota env >> dispatch name)
      else lift (err (backend_error "docs corpus is not enabled on this gateway" (some 404)))
