-- ===== src/Corpus/Tests.antt =====
-- Documents served from a concrete repository.
use mcp_governance_gateway.Base.{
  ℕ, ◌≤◌, String, ◌<>◌, ◌≡◌, refl, true, false, none, some, List, [], ◌∷◌, All, length, ◌*◌, Option,
}
use mcp_governance_gateway.Base.Dict.{get, put}
use mcp_governance_gateway.Base.Eq.{string_eq}
use mcp_governance_gateway.Base.Text.{
  split, before, behind, words, starts_with, ends_with, all_codes, strip, take,
}
use mcp_governance_gateway.Errors.{Result, ok, err, value_error}
use mcp_governance_gateway.Hotfile.{Access, start, refresh}
use mcp_governance_gateway.Limits.{second}
use mcp_governance_gateway.Value.{Value, str, dict, entries, get_value, truthy}
use mcp_governance_gateway.Review.{is_servable, has_bad_part, parse_review_spec}
use mcp_governance_gateway.Gateway.Tests.{plain, some_text}
use mcp_governance_gateway.Corpus.Load.{
  max_docs, max_corpus_bytes, Wanted, is_served, real_parts, any_hidden, sized, sized_at, wanted_of,
  wanted_in, total, capped, wanted_docs, Content, docs_of,
}
use mcp_governance_gateway.Corpus.Load.Caps.{IsWanted, wanted_docs-AreCapped, is_servable-is_served}
use mcp_governance_gateway.Corpus.Repos.{
  RepoEntry, RepoMap, is_project_key, branch_of, entry_of, add_repos, load_docs_repos,
}
use mcp_governance_gateway.Corpus.Repos.Apart.{load_docs_repos-distinct}
use mcp_governance_gateway.Corpus.Clone.{
  Tool, gave, done, clone_name, url_key, checked_out, fetched, kept,
}
use mcp_governance_gateway.Corpus.Documented.{Facts}
use mcp_governance_gateway.Corpus.{
  Registry, Corpus, Visit, snapshot_for, Snapshot, snapshot_with, eligible, refresh_step, refreshed,
  snapshot_in, snapshot_at, load_docs, published, resolve_spec, resolve_spec_quietly,
}

-- Each size is seven.
abbrev seven : String → Result ℕ
seven text = ok 7

abbrev listing : String
listing = "100644 blob a1 7\twiki/a.md"

abbrev wanted : List Wanted
wanted = record { rel = "wiki/a.md"; oid = "a1"; nbytes = 7 } ∷ []

abbrev raw_repos : Result Value
raw_repos = ok (
    dict (
      ("p", dict (("url", str "https://host/p") ∷ []))
      ∷ ("q", dict (("url", str "https://host/q") ∷ []))
      ∷ []))

abbrev entry : String → RepoEntry
entry url = record { url = url; branch = "master"; review = none }

abbrev repos : RepoMap
repos = ("p", entry "https://host/p") ∷ ("q", entry "https://host/q") ∷ []

repos_load : load_docs_repos plain (λ s. s) raw_repos ≡ ok repos
unfolding load_docs_repos add_repos is_project_key all_codes starts_with entry_of branch_of get
    get_value truthy parse_review_spec put dict entries some_text
repos_load = refl

at_p : get "p" repos ≡ some (entry "https://host/p")
unfolding get
at_p = refl

load_docs_repos-distinct_example : ◌≡◌ {A = String} "p" "p"
load_docs_repos-distinct_example =
    load_docs_repos-distinct plain (λ s. s) raw_repos repos "p" "p" (entry "https://host/p")
      (entry "https://host/p") repos_load at_p at_p refl

servable : is_servable "wiki/a.md" ≡ true
unfolding is_servable starts_with ends_with all_codes has_bad_part split
servable = refl

is_servable-is_served_example : is_served "wiki/a.md" ≡ true
is_servable-is_served_example = is_servable-is_served "wiki/a.md" servable

listed : wanted_docs seven listing ≡ ok wanted
unfolding wanted_docs wanted_in wanted_of sized sized_at capped total is_served real_parts
    any_hidden split before behind words starts_with ends_with
listed = refl

wanted_docs-AreCapped_example :
    All IsWanted wanted × (length wanted ≤ max_docs) × (total wanted ≤ max_corpus_bytes)
wanted_docs-AreCapped_example = wanted_docs-AreCapped seven listing wanted listed

abbrev some_content : Content
some_content = record { title = "A"; text = "# A"; meta = []; created_by = none; updated_by = none }

abbrev file : Access Registry
file = record {
  seen = [];
  locked = [];
  parsed = λ previous. err (value_error "unchanged");
  now = 0;
}

-- A clone on disk: its origin, its FETCH_HEAD and its HEAD.
abbrev Tree : Type 0
Tree = String × (String × String)

-- The branch of a URL stays at one commit, which is named for both.
abbrev commit_of : String → String → String
commit_of url branch = url <> branch

abbrev git : Tool Tree
git = record {
  clone = λ branch url. done (url, ("", commit_of url branch));
  set_url = λ url tree. done (url, tree.1);
  is_shallow = λ tree. gave "false\n";
  unshallow = λ branch tree. done (tree.0, (commit_of tree.0 branch, tree.1.1));
  fetch = λ branch tree. done (tree.0, (commit_of tree.0 branch, tree.1.1));
  reset = λ tree. done (tree.0, (tree.1.0, tree.1.0));
  rev_parse = λ tree. gave (tree.1.1);
  list_tree = λ tree commit. gave listing;
  read = λ tree commit wanted. gave (λ w. some_content);
}

abbrev facts : Facts Tree
facts = record {
  origin = λ tree. tree.0;
  fetch_head = λ tree. strip tree.1.0;
  head = λ tree. strip tree.1.1;
  WasAt = λ fingerprint commit. commit ≡ strip (commit_of fingerprint.0 fingerprint.1);
  listing = λ commit. listing;
  content = λ commit wanted w. some_content;
}

-- The cache has a clone of the repository that the project had before.
abbrev corpus : Corpus Tree
corpus = record {
  registry = start false (record { generation = 0; repos = repos });
  snapshots = [];
  clones = (clone_name plain "p" "https://host/p", ("https://host/old", ("", "c0"))) ∷ [];
}

abbrev visit : Visit Tree
visit = record {
  first = file;
  again = file;
  now = 9 * second;
  now_locked = 9 * second;
  now_after = 10 * second;
  git = git;
}

abbrev head_of : Result Snapshot → Option String
head_of (ok snap) = some snap.head
head_of (err e) = none

-- The clone of the old repository is pointed at the one that the project has now.
now_served :
    head_of (snapshot_for plain seven (300 * second) visit "p" corpus).0
    ≡ some "https://host/pmaster"
unfolding start snapshot_for snapshot_with eligible refresh_step refreshed clone_name url_key take
    checked_out fetched kept snapshot_in snapshot_at load_docs published resolve_spec
    resolve_spec_quietly refresh get put strip wanted_docs wanted_in wanted_of sized sized_at capped
    total is_served real_parts any_hidden split before behind words starts_with ends_with docs_of
now_served = refl
