-- ===== src/Corpus/Clone.antt =====
-- A repository's clone on disk, and what git does to it. Code: `_refresh` of
-- mcp_governance_gateway/docs_backend.py. What a run of git comes to is an argument.
use mcp_governance_gateway.Base.{String, ◌<>◌, Bool, Option, none, some, List, if◌then◌else◌}
use mcp_governance_gateway.Base.Dict.{Dict, put}
use mcp_governance_gateway.Base.Text.{strip, take}
use mcp_governance_gateway.Base.Eq.{◌==◌, string_eq}
use mcp_governance_gateway.Runtime.{Runtime}
use mcp_governance_gateway.Corpus.Load.{Wanted, Content}

-- What git comes to: `failed` is CalledProcessError or TimeoutExpired.
pub data Git {ℓ} (A : Type ℓ) : Type ℓ where
  failed : (timed_out : Bool) → Git A
  gave : (output : A) → Git A

-- What a run that changes a clone leaves; one that fails may leave a clone or none.
pub data Outcome (Tree : Type 0) : Type 0 where
  stopped : (timed_out : Bool) (left : Option Tree) → Outcome Tree
  done : (tree : Tree) → Outcome Tree

-- The runs of git that a refresh makes, each with what it comes to. `Tree` is a clone on disk.
pub record Tool (Tree : Type 0) : Type 0 where
  pub clone : (branch url : String) → Outcome Tree
  pub set_url : (url : String) → Tree → Outcome Tree
  pub is_shallow : Tree → Git String
  pub unshallow : (branch : String) → Tree → Outcome Tree
  pub fetch : (branch : String) → Tree → Outcome Tree
  pub reset : Tree → Outcome Tree
  pub rev_parse : Tree → Git String
  pub list_tree : Tree → (commit : String) → Git String
  pub read : Tree → (commit : String) → List Wanted → Git (Wanted → Content)

-- `_url_key`, and the name of a clone's directory below the cache root.
unfoldable pub url_key : Runtime → String → String
unfolding take
url_key rt url = take 12 (rt.sha256 url)

unfoldable pub clone_name : Runtime → String → String → String
unfolding url_key
clone_name rt project url = project <> "-" <> url_key rt url

module _ {Tree : Type 0} where
  abbrev pub then_do : Outcome Tree → (Tree → Outcome Tree) → Outcome Tree
  then_do (stopped timed_out left) next = stopped timed_out left
  then_do (done tree) next = next tree

  -- The two fetches; a shallow clone is made whole.
  abbrev pub fetch_as : Tool Tree → Bool → String → Tree → Outcome Tree
  fetch_as git shallow branch tree =
      if shallow then git.unshallow branch tree else git.fetch branch tree

  unfoldable pub fetched : Tool Tree → String → Tree → Outcome Tree
  unfolding strip
  fetched git branch tree = elim (git.is_shallow tree) [
    | failed timed_out ↦ stopped timed_out (some tree)
    | gave text ↦ fetch_as git (strip text == "true") branch tree
  ]

  -- A directory that is a clone is pointed at the URL, fetched and reset; else it is cloned.
  unfoldable pub checked_out : Tool Tree → String → String → Option Tree → Outcome Tree
  unfolding fetched
  checked_out git url branch none = git.clone branch url
  checked_out git url branch (some tree) =
      then_do (git.set_url url tree) (λ t. then_do (fetched git branch t) git.reset)

  -- The clones on disk, by the names of their directories.
  unfoldable pub kept : String → Outcome Tree → Dict String Tree → Dict String Tree
  unfolding put
  kept name (stopped timed_out none) clones = clones
  kept name (stopped timed_out (some tree)) clones = put name tree clones
  kept name (done tree) clones = put name tree clones
