-- ===== src/Review.antt =====
-- Where a project's proposals go, and which paths they may name.
-- Code: `ReviewSpec`, `parse_review_spec` and `stamped` of mcp_governance_gateway/review_backend.py,
-- `_require_servable` of mcp_governance_gateway/docs_review.py.
pub mod Service
mod Tests
use mcp_governance_gateway.Base.{
  ℕ, String, ◌<>◌, Bool, true, false, not, ◌&&◌, ◌||◌, Option, none, some, List, [], ◌∷◌, ltb, leb,
  eqb, if◌then◌else◌,
}
use mcp_governance_gateway.Base.Text.{
  is_empty, strip, rstrip, rstrip_char, split, starts_with, ends_with, all_codes,
}
use mcp_governance_gateway.Base.Eq.{◌==◌, string_eq}
use mcp_governance_gateway.Errors.{value_error, backend_error, Result, ok, err, ◌>>=◌}
use mcp_governance_gateway.Principal.{RequestContext, footer}
use mcp_governance_gateway.Runtime.{Runtime}
use mcp_governance_gateway.Value.{null, obj, Args, entries, get_value, truthy}
use mcp_governance_gateway.Base.Dict.{get}

pub record ReviewSpec : Type 0 where
  pub project : String
  pub type : String
  pub repo : String
  pub api : String
  pub base_branch : String

abbrev pub backend_key : ReviewSpec → String
backend_key spec = "docs-" <> spec.type

-- [A-Za-z0-9._-]
abbrev pub is_repo_code : ℕ → Bool
is_repo_code n =
    (leb b'A' n && leb n b'Z')
    || (leb b'a' n && leb n b'z')
    || (leb b'0' n && leb n b'9')
    || eqb n b'.'
    || eqb n b'_'
    || eqb n b'-'

abbrev pub is_repo_part : String → Bool
is_repo_part s = not (is_empty s) && all_codes is_repo_code s

unfoldable pub all_repo_parts : List String → Bool
unfolding all_codes
all_repo_parts [] = true
all_repo_parts (p ∷ ps) = is_repo_part p && all_repo_parts ps

abbrev pub are_two : List String → Bool
are_two (p ∷ q ∷ []) = true
are_two _ = false

-- The fullmatch of _GITHUB_REPO_RE or _GITLAB_PROJECT_RE.
unfoldable pub is_repo : Bool → String → Bool
unfolding all_repo_parts split
is_repo github repo =
    let parts = split b'/' repo in all_repo_parts parts && (not github || are_two parts)

-- The fullmatch of _BRANCH_RE.
unfoldable pub is_branch : String → Bool
unfolding all_codes
is_branch s = not (is_empty s) && all_codes (λ n. is_repo_code n || eqb n b'/') s

-- str(raw.get(key, ""))
unfoldable pub text_at : Runtime → Args → String → String
unfolding get
text_at rt raw key = elim (get key raw) [ none ↦ "" | some v ↦ rt.str_of v ]

-- str(raw.get("baseBranch", "") or branch)
unfoldable pub branch_at : Runtime → Args → String → String
unfolding get_value truthy
branch_at rt raw branch =
    let v = get_value raw "baseBranch" in if truthy v then rt.str_of v else branch

module _ (rt : Runtime) (project : String) where
  abbrev pub refusal : String → Result ReviewSpec
  refusal reason = err (value_error ("docs repo entry for " <> rt.repr project <> ": " <> reason))

  abbrev pub is_url : String → Bool
  is_url s = starts_with s "http://" || starts_with s "https://"

  -- The spec of a supported type, from the repository on.
  unfoldable pub spec_of : String → Bool → Args → String → Result ReviewSpec
  unfolding text_at branch_at is_repo is_branch strip rstrip_char starts_with
  spec_of kind github raw branch =
      let repo = strip (text_at rt raw "repo") in
      let given = rstrip_char b'/' (strip (text_at rt raw "api")) in
      let default = if github then "https://api.github.com" else "https://gitlab.com/api/v4" in
      let api = if is_empty given then default else given in
      let base = strip (branch_at rt raw branch) in
      if not (is_repo github repo)
      then refusal ("review repo " <> rt.repr repo <> " is not a valid " <> kind <> " project")
      else if not (is_url api)
      then refusal ("review api " <> rt.repr api <> " must be an http(s) URL")
      else if not (is_branch base)
      then refusal ("review baseBranch " <> rt.repr base <> " is not a branch name")
      else ok
          (record { project = project; type = kind; repo = repo; api = api; base_branch = base })

  -- `kind or '(missing)'`
  abbrev pub shown_kind : String → String
  shown_kind kind = if is_empty kind then "(missing)" else kind

  unfoldable pub spec_in : Args → String → Result ReviewSpec
  unfolding text_at strip spec_of
  spec_in raw branch =
      let kind = rt.lower (strip (text_at rt raw "type")) in
      if kind == "github"
      then spec_of "github" true raw branch
      else if kind == "gitlab"
      then spec_of "gitlab" false raw branch
      else refusal ("review type " <> rt.repr (shown_kind kind) <> " is not one of github, gitlab")

  -- The `review` block of an entry: none makes the corpus read-only.
  unfoldable pub parse_review_spec : Args → String → Result (Option ReviewSpec)
  unfolding get_value spec_in
  parse_review_spec entry branch = elim (get_value entry "review") [
    | null ↦ ok none
    | obj fs ↦ spec_in (entries fs) branch >>= λ spec. ok (some spec)
    | _ ↦
        err (
          value_error ("docs repo entry for " <> rt.repr project <> ": 'review' must be an object"))
  ]

-- A comment's body with the gateway's footer.
unfoldable pub stamped : String → RequestContext → String
unfolding rstrip footer
stamped body context = rstrip body <> "\n\n" <> footer context false

abbrev pub is_control : ℕ → Bool
is_control n = ltb n 0x20 || eqb n 0x7f

-- any(part.startswith(".") or not part for part in parts)
unfoldable pub has_bad_part : List String → Bool
unfolding starts_with
has_bad_part [] = false
has_bad_part (p ∷ ps) = starts_with p "." || is_empty p || has_bad_part ps

-- The path is one that the read path would serve.
unfoldable pub is_servable : String → Bool
unfolding starts_with ends_with all_codes has_bad_part split
is_servable path =
    (starts_with path "raw/" || starts_with path "wiki/")
    && ends_with path ".md"
    && all_codes (λ n. not (is_control n)) path
    && not (has_bad_part (split b'/' path))

unfoldable pub require_servable : Runtime → String → Result (Unit {0})
unfolding is_servable
require_servable rt path =
    if is_servable path
    then ok tt
    else err (
        backend_error
          ("documents live under raw/ or wiki/ and end in .md; "
            <> rt.repr path
            <> " does not, and this tool proposes documents rather than arbitrary files")
          (some 400))
