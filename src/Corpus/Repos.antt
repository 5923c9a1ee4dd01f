-- ===== src/Corpus/Repos.antt =====
-- Which repository each project's documents come from.
-- Code: `load_docs_repos` of mcp_governance_gateway/docs_backend.py. `casefold` is `str.casefold`.
pub mod Apart
use mcp_governance_gateway.Base.{
  String, ◌<>◌, Bool, not, ◌&&◌, Option, none, some, List, [], ◌∷◌, if◌then◌else◌,
}
use mcp_governance_gateway.Base.Dict.{Dict, get, put}
use mcp_governance_gateway.Base.Text.{all_codes, starts_with, is_empty}
use mcp_governance_gateway.Base.Eq.{◌==◌, string_eq, contains}
use mcp_governance_gateway.Errors.{value_error, Result, ok, err, ◌>>=◌}
use mcp_governance_gateway.Review.{ReviewSpec, is_repo_code, parse_review_spec}
use mcp_governance_gateway.Runtime.{Runtime}
use mcp_governance_gateway.Value.{Value, obj, Args, entries, get_value, truthy}

pub record RepoEntry : Type 0 where
  pub url : String
  pub branch : String
  pub review : Option ReviewSpec

abbrev pub RepoMap : Type 0
RepoMap = Dict String RepoEntry

-- The fullmatch of _PROJECT_KEY_RE.
unfoldable pub is_project_key : String → Bool
unfolding all_codes starts_with
is_project_key key = not (is_empty key) && not (starts_with key ".") && all_codes is_repo_code key

module _ (rt : Runtime) where
  -- str(spec.get("branch", "master"))
  unfoldable pub branch_of : Args → String
  unfolding get
  branch_of spec = elim (get "branch" spec) [ none ↦ "master" | some v ↦ rt.str_of v ]

  abbrev pub needs_url : String → Result RepoEntry
  needs_url project =
      err (value_error ("docs repo entry for " <> rt.repr project <> " needs a url"))

module _ (rt : Runtime) (casefold : String → String) where
  -- The entry of one project, where its URL is not one of those seen.
  unfoldable pub entry_of : List String → String → Value → Result RepoEntry
  unfolding get_value truthy branch_of parse_review_spec ◌>>=◌
  entry_of urls project (obj fs) =
      let spec = entries fs in
      let url = rt.str_of (get_value spec "url") in
      if not (truthy (get_value spec "url"))
      then needs_url rt project
      else if contains (casefold url) urls
      then err (value_error "two projects cannot map the same docs repo URL")
      else parse_review_spec rt project spec (branch_of rt spec) >>= λ review.
          ok (record { url = url; branch = branch_of rt spec; review = review })
  entry_of urls project _ = needs_url rt project

  -- The loop, with the URLs seen and the entries made.
  unfoldable pub add_repos : Args → List String → RepoMap → Result RepoMap
  unfolding is_project_key entry_of put ◌>>=◌
  add_repos [] urls repos = ok repos
  add_repos ((project, spec) ∷ more) urls repos =
      let skipped = add_repos more urls repos in
      let added = entry_of urls project spec >>= λ entry.
      add_repos more (casefold entry.url ∷ urls) (put project entry repos) in
      if project == "_comment"
      then skipped
      else if not (is_project_key project)
      then err (
          value_error (
            "docs repo key "
            <> rt.repr project
            <> " must be a plain name (letters, digits, . _ -; no leading dot)"))
      else added

  -- The file, as what parsing its JSON comes to.
  unfoldable pub load_docs_repos : Result Value → Result RepoMap
  unfolding add_repos
  load_docs_repos (err e) = err e
  load_docs_repos (ok (obj fs)) = add_repos (entries fs) [] []
  load_docs_repos (ok _) =
      err (value_error "docs repos file must be a JSON object of project -> {url, branch}")
