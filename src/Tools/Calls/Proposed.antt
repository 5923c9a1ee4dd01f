-- ===== src/Tools/Calls/Proposed.antt =====
-- The docs handler calls no gated method of a review host without a confirmation.
-- Code: `call` of mcp_governance_gateway/tools/docs.py.
use mcp_governance_gateway.Base.{
  String, ◌<>◌, ◌≡◌, refl, false, not, ◌&&◌, ◌||◌, none, some, List, [], ◌∷◌,
}
use mcp_governance_gateway.Base.Int.{pos}
use mcp_governance_gateway.Base.Eq.{◌==◌, string_eq}
use mcp_governance_gateway.Base.Text.{starts_with}
use mcp_governance_gateway.Errors.{ok, err, value_error, backend_error}
use mcp_governance_gateway.Value.{Value, Args, get_value}
use mcp_governance_gateway.SecretScan.{find_secret, reject_secret}
use mcp_governance_gateway.Review.Service as Service
use mcp_governance_gateway.Tools.Args.{
  required_text, optional_text, limit, optional_int, required_change_ref,
}
use mcp_governance_gateway.Tools.Calls.Docs as Docs
use mcp_governance_gateway.Tools.Host.{
  Method, is_gated, Env, World, ◌>>=◌, lift, staged, enforce_read_quota,
}
use mcp_governance_gateway.Tools.Calls.Gated.{
  Keeps, Guards, lift-Keeps, enforce_read_quota-Keeps, send_review-Keeps, staged-Keeps, bind-Keeps,
  bind-Guards, Keeps-Guards, if-Keeps, if-Guards, case-Guards, gate-Guards, checked, plain, raised,
}

module _ (env : Env) (arguments : Args) (w0 : World) where
  resolved-Keeps :
      (method : Method) (values : List Value)
      → is_gated method ≡ false
      → Keeps env arguments w0 (Service.resolved env method values)
  unfolding Service.resolved ◌>>=◌
  resolved-Keeps method values h =
      bind-Keeps env arguments w0 (lift (Service.resolve env)) _
        (lift-Keeps env arguments w0 (Service.resolve env))
        (λ found. send_review-Keeps env arguments w0 found.0 found.1 method values h)

  search-Guards : (name : String) → Guards env arguments w0 name (Docs.search env arguments)
  unfolding Docs.search is_gated ◌>>=◌
  search-Guards name =
      checked env arguments w0 name (required_text arguments "query" 512) _ (λ query.
        checked env arguments w0 name (limit (get_value arguments "limit") (pos 8)) _
          (λ top. plain env arguments w0 name _ _ refl))

  get_document-Guards :
      (name : String) → Guards env arguments w0 name (Docs.get_document env arguments)
  unfolding Docs.get_document is_gated ◌>>=◌
  get_document-Guards name =
      checked env arguments w0 name (required_text arguments "path" 500) _
        (λ path. plain env arguments w0 name _ _ refl)

  review_get-Guards : (name : String) → Guards env arguments w0 name (Docs.review_get env arguments)
  unfolding Docs.review_get Service.get_change is_gated ◌>>=◌
  review_get-Guards name =
      checked env arguments w0 name (required_change_ref arguments) _
        (λ change_ref. Keeps-Guards env arguments w0 name _ (resolved-Keeps _ _ refl))

  review_list-Guards :
      (name : String) → Guards env arguments w0 name (Docs.review_list env arguments)
  unfolding Docs.review_list Service.list_changes is_gated ◌>>=◌
  review_list-Guards name =
      checked env arguments w0 name (optional_int arguments "limit" (pos 1) (pos 50)) _
        (λ top. Keeps-Guards env arguments w0 name _ (resolved-Keeps _ _ refl))

  review_add_reviewer-Guards :
      Guards env arguments w0 "docs.review_add_reviewer" (Docs.review_add_reviewer env arguments)
  unfolding Docs.review_add_reviewer ◌>>=◌
  review_add_reviewer-Guards =
      checked env arguments w0 _ (required_text arguments "reviewer" 39) _ (λ reviewer.
        checked env arguments w0 _ (required_change_ref arguments) _
          (λ change_ref. gate-Guards env arguments w0 "docs.review_add_reviewer" _ _ _))

  review_abandon-Guards :
      Guards env arguments w0 "docs.review_abandon" (Docs.review_abandon env arguments)
  unfolding Docs.review_abandon ◌>>=◌
  review_abandon-Guards =
      checked env arguments w0 _ (required_change_ref arguments) _ (λ change_ref.
        checked env arguments w0 _ (optional_text arguments "message" 20_000) _ (λ message.
          checked env arguments w0 _
            (reject_secret (find_secret env.rt (some (Docs.text_or_empty message) ∷ []))) _
            (λ _. gate-Guards env arguments w0 "docs.review_abandon" _ _ _)))

  review_comment-Guards :
      Guards env arguments w0 "docs.review_comment" (Docs.review_comment env arguments)
  unfolding Docs.review_comment ◌>>=◌
  review_comment-Guards =
      checked env arguments w0 _ (required_change_ref arguments) _ (λ change_ref.
        checked env arguments w0 _ (required_text arguments "body" 20_000) _ (λ body.
          checked env arguments w0 _ (reject_secret (find_secret env.rt (some body ∷ []))) _
            (λ _. gate-Guards env arguments w0 "docs.review_comment" _ _ _)))

  asset_stage_url-Guards :
      (name : String) → Guards env arguments w0 name (Docs.asset_stage_url env arguments)
  unfolding Docs.asset_stage_url ◌>>=◌
  asset_stage_url-Guards name =
      if-Guards env arguments w0 name
        (not (Service.has_project env env.context.project) || not env.has_stage) _ _
        (raised env arguments w0 name
          (err (backend_error "staged content is not configured for this project" (some 404))))
        (checked env arguments w0 name (Docs.kind_argument env arguments) _ (λ kind.
          Keeps-Guards env arguments w0 name (staged (Docs.minting env arguments kind))
            (staged-Keeps env arguments w0 (Docs.minting env arguments kind))))

  staged_content-Keeps :
      (staged_id : String) → Keeps env arguments w0 (Docs.staged_content env arguments staged_id)
  unfolding Docs.staged_content
  staged_content-Keeps staged_id =
      if-Keeps env arguments w0 (not (starts_with staged_id "doc_")) _ _
        (lift-Keeps env arguments w0 (
          err (
            value_error
              "contentStaged must be a doc_ id from docs.asset_stage_url(kind='content')")))
        (if-Keeps env arguments w0 (not env.has_stage) _ _
          (lift-Keeps env arguments w0
            (err (backend_error "staged content is not configured on this gateway" (some 404))))
          (staged-Keeps env arguments w0 _))

  content_argument-Keeps : Keeps env arguments w0 (Docs.content_argument env arguments)
  unfolding Docs.content_argument ◌>>=◌
  content_argument-Keeps =
      if-Keeps env arguments w0
        (Docs.has_argument env arguments "contentStaged"
          && Docs.has_argument env arguments "content")
        _ _
        (lift-Keeps env arguments w0 (err (value_error "pass content OR contentStaged, not both")))
        (if-Keeps env arguments w0 (Docs.has_argument env arguments "contentStaged") _ _
          (bind-Keeps env arguments w0 (lift (required_text arguments "contentStaged" 64)) _
            (lift-Keeps env arguments w0 (required_text arguments "contentStaged" 64))
            (λ staged_id.
              bind-Keeps env arguments w0 (Docs.staged_content env arguments staged_id) _
                (staged_content-Keeps staged_id)
                (λ content. lift-Keeps env arguments w0 (ok (some staged_id, content)))))
          (bind-Keeps env arguments w0 (lift (required_text arguments "content" 200_000)) _
            (lift-Keeps env arguments w0 (required_text arguments "content" 200_000))
            (λ content. lift-Keeps env arguments w0 (ok (none, content)))))

  propose_document-Guards :
      (name : String) → Guards env arguments w0 name (Docs.propose_document env arguments name)
  unfolding Docs.propose_document ◌>>=◌
  propose_document-Guards name =
      checked env arguments w0 name (required_text arguments "path" 500) _ (λ path.
        bind-Guards env arguments w0 name (Docs.content_argument env arguments) _
          content_argument-Keeps
          (λ body.
            checked env arguments w0 name (required_text arguments "message" 255) _ (λ message.
              checked env arguments w0 name
                (reject_secret (find_secret env.rt (some path ∷ some body.1 ∷ some message ∷ []))) _
                (λ _.
                  checked env arguments w0 name (Docs.sha_argument env arguments name) _
                    (λ base_sha. gate-Guards env arguments w0 name _ _ _)))))

  dispatch_review-Guards :
      (name : String) → Guards env arguments w0 name (Docs.dispatch_review env arguments name)
  unfolding Docs.dispatch_review
  dispatch_review-Guards name = case-Guards env arguments w0 name _ _ _ (review_get-Guards _) (
      case-Guards env arguments w0 name _ _ _ (review_list-Guards _) (
        case-Guards env arguments w0 name _ _ _ review_add_reviewer-Guards (
          case-Guards env arguments w0 name _ _ _ review_abandon-Guards (
            case-Guards env arguments w0 name _ _ _ (asset_stage_url-Guards _) (
              if-Guards env arguments w0 name ((name == "docs.create") || (name == "docs.update")) _
                _ (propose_document-Guards name)
                (case-Guards env arguments w0 name _ _ _ review_comment-Guards (
                  raised env arguments w0 name
                    (err (value_error ("Unknown docs tool: " <> name))))))))))

  review_or_raise-Guards :
      (name : String) → Guards env arguments w0 name (Docs.review_or_raise env arguments name)
  unfolding Docs.review_or_raise
  review_or_raise-Guards name =
      if-Guards env arguments w0 name env.has_review _ _ (dispatch_review-Guards name) (
        raised env arguments w0 name (
          err (
            backend_error
              "this project's docs corpus is read-only: no review host is configured for it"
              (some 404))))

  docs_dispatch-Guards :
      (name : String) → Guards env arguments w0 name (Docs.dispatch env arguments name)
  unfolding Docs.dispatch is_gated
  docs_dispatch-Guards name = case-Guards env arguments w0 name _ _ _ (search-Guards _) (
      case-Guards env arguments w0 name _ _ _ (get_document-Guards _) (
        case-Guards env arguments w0 name _ _ _ (plain env arguments w0 _ _ _ refl) (
          case-Guards env arguments w0 name _ _ _ (plain env arguments w0 _ _ _ refl)
            (review_or_raise-Guards name))))

  pub docs-Guards : (name : String) → Guards env arguments w0 name (Docs.call env arguments name)
  unfolding Docs.call
  docs-Guards name =
      if-Guards env arguments w0 name env.has_docs _ _
        (bind-Guards env arguments w0 name (enforce_read_quota env) _
          (enforce_read_quota-Keeps env arguments w0) (λ _. docs_dispatch-Guards name))
        (raised env arguments w0 name
          (err (backend_error "docs corpus is not enabled on this gateway" (some 404))))
