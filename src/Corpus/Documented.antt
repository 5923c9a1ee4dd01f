-- ===== src/Corpus/Documented.antt =====
-- What git is supposed to do, as documented, in the runs that `_refresh` and `_load_docs` of
-- mcp_governance_gateway/docs_backend.py make.
use mcp_governance_gateway.Base.{String, ◌≡◌, List}
use mcp_governance_gateway.Base.Text.{strip}
use mcp_governance_gateway.Corpus.Load.{Wanted, Content}
use mcp_governance_gateway.Corpus.Clone.{Git, failed, gave, Outcome, stopped, done, Tool}
use mcp_governance_gateway.Corpus.{Fingerprint}

abbrev pub Given : {A : Type 0} → (A → Type 0) → Git A → Type 0
Given P (failed timed_out) = Unit
Given P (gave output) = P output

abbrev pub Done : {Tree : Type 0} → (Tree → Type 0) → Outcome Tree → Type 0
Done P (stopped timed_out left) = Unit
Done P (done tree) = P tree

-- What there is to see of clones, remotes and commits: the URL of a clone's origin, its FETCH_HEAD
-- and its HEAD, which commits a remote's branch has been at, and what a commit holds.
pub record Facts (Tree : Type 0) : Type 1 where
  pub origin : Tree → String
  pub fetch_head : Tree → String
  pub head : Tree → String
  pub WasAt : Fingerprint → String → Type 0
  pub listing : (commit : String) → String
  pub content : (commit : String) → List Wanted → Wanted → Content

-- The documented behaviour of git: where a run succeeds, a clone is at the commit that the URL's
-- branch is at, `set-url` sets the origin, a fetch takes the commit that the branch of the origin is
-- at, a reset goes to the fetched commit, `rev-parse` tells the HEAD, and a commit that is read gives
-- what it holds.
pub record IsGit {Tree : Type 0} (facts : Facts Tree) (git : Tool Tree) : Type 0 where
  pub clones :
      (branch url : String)
      → Done (λ t. facts.WasAt (url, branch) (facts.head t)) (git.clone branch url)
  pub sets : (url : String) (tree : Tree) → Done (λ t. facts.origin t ≡ url) (git.set_url url tree)
  pub deepens :
      (branch : String) (tree : Tree)
      → Done
          (λ t. facts.WasAt (facts.origin tree, branch) (facts.fetch_head t))
          (git.unshallow branch tree)
  pub fetches :
      (branch : String) (tree : Tree)
      → Done
          (λ t. facts.WasAt (facts.origin tree, branch) (facts.fetch_head t))
          (git.fetch branch tree)
  pub resets : (tree : Tree) → Done (λ t. facts.head t ≡ facts.fetch_head tree) (git.reset tree)
  pub tells : (tree : Tree) → Given (λ text. strip text ≡ facts.head tree) (git.rev_parse tree)
  pub lists :
      (tree : Tree) (commit : String)
      → Given (λ text. text ≡ facts.listing commit) (git.list_tree tree commit)
  pub reads :
      (tree : Tree) (commit : String) (wanted : List Wanted)
      → Given (λ content. content ≡ facts.content commit wanted) (git.read tree commit wanted)
