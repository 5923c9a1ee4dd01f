-- ===== src/Corpus/Current.antt =====
-- Whose documents are served. Code: `_snapshot_for` of mcp_governance_gateway/docs_backend.py.
use mcp_governance_gateway.Base.{ℕ, String, ◌≡◌, true, false, some}
use mcp_governance_gateway.Base.Dict.{get}
use mcp_governance_gateway.Base.Eq.{string_eq, nat_eq, option_eq, list_eq}
use mcp_governance_gateway.Errors.{Result, ok, err}
use mcp_governance_gateway.Hotfile.{refresh}
use mcp_governance_gateway.Runtime.{Runtime}
use mcp_governance_gateway.Corpus.Load.{Docs}
use mcp_governance_gateway.Corpus.Repos.{RepoEntry}
use mcp_governance_gateway.Corpus.{Fingerprint, Snapshot, Corpus, Visit}
use mcp_governance_gateway.Corpus.Own.{AreOwn, Serves}

module _ {Tree : Type 0} (rt : Runtime) (int_of : String → Result ℕ)
    (Loaded : Fingerprint → String → Docs → Type 0) where
  -- What a step answers and leaves.
  abbrev Keeps : Fingerprint → Result Snapshot × Corpus Tree → Type 0
  Keeps fingerprint (r, c) = Serves Loaded fingerprint r × AreOwn Loaded c

  -- What a request answers: a snapshot of the specification that the registry has for the project.
  pub record IsCurrent (v : Visit Tree) (project : String) (c : Corpus Tree) (snap : Snapshot)
      : Type 0 where
    pub entry : RepoEntry
    pub configured : get project (refresh true false v.first c.registry).value.repos ≡ some entry
    pub same : snap.spec ≡ (entry.url, entry.branch)
    pub documents : Loaded (entry.url, entry.branch) snap.head snap.docs

  abbrev pub AnswersFrom : Visit Tree → String → Corpus Tree → Result Snapshot → Type 0
  AnswersFrom v project c (ok snap) = IsCurrent v project c snap
  AnswersFrom v project c (err e) = Unit

  abbrev Settles : Visit Tree → String → Corpus Tree → Result Snapshot × Corpus Tree → Type 0
  Settles v project c (r, after) = AreOwn Loaded after × AnswersFrom v project c r
