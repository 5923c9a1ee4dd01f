-- ===== src/Corpus.antt =====
-- A project's documents, as they are served.
-- Code: `DocsCorpus` of mcp_governance_gateway/docs_backend.py: `_resolve_spec`, `_snapshot_for`,
-- `_eligible_snapshot` and `_refresh`. A request is one step: the locks keep two refreshes of one
-- project apart. What runs of git, the files and the clock give it is an argument.
pub mod Load
pub mod Clone
pub mod Repos
pub mod Own
pub mod Documented
pub mod Faithful
pub mod Current
pub mod Get
mod Tests
use mcp_governance_gateway.Base.{
  ℕ, suc, ◌-◌, String, ◌<>◌, Bool, true, false, not, ◌&&◌, Option, none, some, List, [], ltb,
  is_some, if◌then◌else◌,
}
use mcp_governance_gateway.Base.Dict.{Dict, get, put}
use mcp_governance_gateway.Base.Text.{is_empty, strip}
use mcp_governance_gateway.Runtime.{Runtime}
use mcp_governance_gateway.Base.Eq.{◌==◌, string_eq, pair_eq, nat_eq, option_eq, list_eq}
use mcp_governance_gateway.Errors.{backend_error, Result, ok, err, ◌>>=◌}
use mcp_governance_gateway.Hotfile.{Reloading, Access, refresh}
use mcp_governance_gateway.Review.{ReviewSpec}
use mcp_governance_gateway.Corpus.Load.{Wanted, Content, Docs, wanted_docs, docs_of}
use mcp_governance_gateway.Corpus.Repos.{RepoMap}
use mcp_governance_gateway.Corpus.Clone.{
  Git, failed, gave, Outcome, stopped, done, Tool, clone_name, checked_out, kept,
}

pub record Registry : Type 0 where
  pub generation : ℕ
  pub repos : RepoMap

-- The registry that a file's repositories make.
unfoldable pub parse_registry : (Registry → Result RepoMap) → Registry → Result Registry
unfolding ◌>>=◌
parse_registry load previous =
    load previous >>= λ repos. ok (record { generation = suc previous.generation; repos = repos })

-- (url, branch)
abbrev pub Fingerprint : Type 0
Fingerprint = String × String

pub record Spec : Type 0 where
  pub project : String
  pub fingerprint : Fingerprint
  pub generation : ℕ

-- The index is computed from the documents.
pub record Snapshot : Type 0 where
  pub head : String
  pub docs : Docs
  pub refreshed_at : ℕ
  pub spec : Fingerprint

-- `clones` are the clones on disk.
pub record Corpus (Tree : Type 0) : Type 0 where
  pub registry : Reloading Registry
  pub snapshots : Dict String Snapshot
  pub clones : Dict String Tree

-- What one request finds: the file at the first lookup and at the one after a refresh, the clock,
-- and what git comes to.
pub record Visit (Tree : Type 0) : Type 0 where
  pub first : Access Registry
  pub again : Access Registry
  pub now : ℕ
  pub now_locked : ℕ
  pub now_after : ℕ
  pub git : Tool Tree

-- What reading a tree gives: the caps on its listing, then each wanted document.
unfoldable pub load_docs :
    (String → Result ℕ) → Git String → (List Wanted → Git (Wanted → Content)) → Git (Result Docs)
unfolding wanted_docs docs_of
load_docs int_of (failed timed_out) read = failed timed_out
load_docs int_of (gave listing) read = elim (wanted_docs int_of listing) [
  | err e ↦ gave (err e)
  | ok wanted ↦ elim (read wanted) [
    | failed timed_out ↦ failed timed_out
    | gave content ↦ gave (ok (docs_of content wanted []))
  ]
]

abbrev pub not_configured : {A : Type 0} → Result A
not_configured = err (backend_error "no docs corpus is configured for this project" (some 404))

unfoldable pub resolve_spec : Registry → String → Result Spec
unfolding get
resolve_spec registry project = elim (get project registry.repos) [
  | none ↦ not_configured
  | some entry ↦ ok (record {
    project = project;
    fingerprint = (entry.url, entry.branch);
    generation = registry.generation;
  })
]

unfoldable pub resolve_spec_quietly : Registry → String → Option Fingerprint
unfolding get
resolve_spec_quietly registry project = elim (get project registry.repos) [
  | none ↦ none
  | some entry ↦ some (entry.url, entry.branch)
]

-- has_project and review_spec_for, of the registry as it is.
unfoldable pub has_project : Registry → String → Bool
unfolding get
has_project registry project = not (is_empty project) && is_some (get project registry.repos)

unfoldable pub review_spec_for : Registry → String → Option ReviewSpec
unfolding get
review_spec_for registry project =
    if is_empty project
    then none
    else elim (get project registry.repos) [ none ↦ none | some entry ↦ entry.review ]

module _ (pull_interval : ℕ) where
  -- A snapshot of the current specification that is fresh.
  unfoldable pub eligible : Option Snapshot → Fingerprint → ℕ → Option Snapshot
  eligible none fingerprint now = none
  eligible (some snap) fingerprint now =
      if (snap.spec == fingerprint) && ltb (now - snap.refreshed_at) pull_interval
      then some snap
      else none

-- The head that the cached snapshot has: its documents serve again.
abbrev pub is_unchanged : Option Snapshot → String → Fingerprint → Option Docs
is_unchanged none head fingerprint = none
is_unchanged (some previous) head fingerprint =
    if (previous.head == head) && (previous.spec == fingerprint) then some previous.docs else none

abbrev pub snapshot_of : Spec → String → ℕ → Docs → Snapshot
snapshot_of spec head now docs = record {
  head = head;
  docs = docs;
  refreshed_at = now;
  spec = spec.fingerprint;
}

abbrev pub read_of : Spec → String → ℕ → Git (Result Docs) → Git (Result Snapshot)
read_of spec head now (failed timed_out) = failed timed_out
read_of spec head now (gave (err e)) = gave (err e)
read_of spec head now (gave (ok docs)) = gave (ok (snapshot_of spec head now docs))

module _ {Tree : Type 0} (rt : Runtime) (int_of : String → Result ℕ) where
  -- The snapshot of a head, which is read where the cached one is not of that head.
  unfoldable pub snapshot_at :
      Visit Tree → Spec → Option Snapshot → Tree → String → Git (Result Snapshot)
  unfolding load_docs
  snapshot_at v spec previous tree head = elim (is_unchanged previous head spec.fingerprint) [
    | some docs ↦ gave (ok (snapshot_of spec head v.now_after docs))
    | none ↦
        read_of spec head v.now_after
          (load_docs int_of (v.git.list_tree tree head) (v.git.read tree head))
  ]

  -- _refresh, from the clone on.
  unfoldable pub snapshot_in :
      Visit Tree → Spec → Option Snapshot → Outcome Tree → Git (Result Snapshot)
  unfolding snapshot_at strip
  snapshot_in v spec previous (stopped timed_out left) = failed timed_out
  snapshot_in v spec previous (done tree) = elim (v.git.rev_parse tree) [
    | failed timed_out ↦ failed timed_out
    | gave text ↦ snapshot_at v spec previous tree (strip text)
  ]

  -- _refresh, with the clones that it leaves.
  unfoldable pub refreshed :
      Visit Tree
      → Spec
      → Option Snapshot
      → Dict String Tree
      → Git (Result Snapshot) × Dict String Tree
  unfolding clone_name checked_out snapshot_in kept get
  refreshed v spec previous clones =
      let name = clone_name rt spec.project spec.fingerprint.0 in
      let outcome = checked_out v.git spec.fingerprint.0 spec.fingerprint.1 (get name clones) in
      (snapshot_in v spec previous outcome, kept name outcome clones)

abbrev pub unavailable : Bool → Result Snapshot
unavailable timed_out = err (
    backend_error
      ("docs corpus unavailable: "
        <> (if timed_out then "git timed out" else "git clone/fetch failed"))
      (some 503))

module _ {Tree : Type 0} where
  -- After a failure: the last good snapshot of the same specification, until the next interval.
  unfoldable pub fall_back :
      Visit Tree → Spec → Bool → Option Snapshot → Corpus Tree → Result Snapshot × Corpus Tree
  unfolding put
  fall_back v spec timed_out none c = (unavailable timed_out, c)
  fall_back v spec timed_out (some stale) c =
      let serving = record stale { refreshed_at = v.now_after } in
      if stale.spec == spec.fingerprint
      then (ok serving, record c { snapshots = put spec.project serving c.snapshots })
      else (unavailable timed_out, c)

  -- A refreshed snapshot is published where the specification is still the one it was made from.
  unfoldable pub published : Visit Tree → Spec → Snapshot → Corpus Tree → Corpus Tree
  unfolding resolve_spec_quietly put refresh
  published v spec snap c =
      let registry = refresh true false v.again c.registry in
      let serving = record c { registry = registry } in
      if resolve_spec_quietly registry.value spec.project == some spec.fingerprint
      then record serving { snapshots = put spec.project snap c.snapshots }
      else serving

module _ {Tree : Type 0} (rt : Runtime) (int_of : String → Result ℕ) where
  unfoldable pub refresh_step : Visit Tree → Spec → Corpus Tree → Result Snapshot × Corpus Tree
  unfolding refreshed fall_back published get
  refresh_step v spec c =
      let cached = get spec.project c.snapshots in
      let (r, clones) = refreshed rt int_of v spec cached c.clones in
      let after = record c { clones = clones } in
      elim r [
        | failed timed_out ↦ fall_back v spec timed_out cached after
        | gave (err e) ↦ (err e, after)
        | gave (ok snap) ↦ (ok snap, published v spec snap after)
      ]

module _ {Tree : Type 0} (rt : Runtime) (int_of : String → Result ℕ) (pull_interval : ℕ) where
  -- The rest of _snapshot_for, from the specification on.
  unfoldable pub snapshot_with : Visit Tree → Spec → Corpus Tree → Result Snapshot × Corpus Tree
  unfolding eligible refresh_step get
  snapshot_with v spec c =
      let cached = get spec.project c.snapshots in
      elim (eligible pull_interval cached spec.fingerprint v.now) [
        | some snap ↦ (ok snap, c)
        | none ↦ elim (eligible pull_interval cached spec.fingerprint v.now_locked) [
          | some snap ↦ (ok snap, c)
          | none ↦ refresh_step rt int_of v spec c
        ]
      ]

  unfoldable pub snapshot_for : Visit Tree → String → Corpus Tree → Result Snapshot × Corpus Tree
  unfolding resolve_spec snapshot_with refresh
  snapshot_for v project c =
      let registry = refresh true false v.first c.registry in
      let current = record c { registry = registry } in
      elim (resolve_spec registry.value project) [
        | err e ↦ (err e, current)
        | ok spec ↦ snapshot_with v spec current
      ]
