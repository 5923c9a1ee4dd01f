-- ===== src/Corpus/Faithful.antt =====
-- What a refresh gives, where git does as documented. Code: `_refresh` and `_load_docs` of
-- mcp_governance_gateway/docs_backend.py.
use mcp_governance_gateway.Base.{
  ℕ, String, ◌≡◌, refl, sym, ap, ◌∙◌, subst, Bool, true, false, Option, none, some, List, [],
}
use mcp_governance_gateway.Base.Dict.{Dict, get}
use mcp_governance_gateway.Base.Text.{strip}
use mcp_governance_gateway.Base.Eq.{◌==◌, string_eq}
use mcp_governance_gateway.Runtime.{Runtime}
use mcp_governance_gateway.Errors.{Result, ok, err}
use mcp_governance_gateway.Corpus.Load.{Wanted, Content, Docs, wanted_docs, docs_of}
use mcp_governance_gateway.Corpus.Clone.{
  Git, failed, gave, Outcome, stopped, done, Tool, clone_name, then_do, fetch_as, fetched,
  checked_out,
}
use mcp_governance_gateway.Corpus.{
  Fingerprint, Spec, Snapshot, Visit, is_unchanged, snapshot_of, read_of, load_docs, snapshot_at,
  snapshot_in, refreshed,
}
use mcp_governance_gateway.Corpus.Own.{Reads, MayOwn, is_unchanged-Loaded, read_of-Reads}
use mcp_governance_gateway.Corpus.Documented.{Given, Done, Facts, IsGit}

-- The documents that the code makes of what a commit holds.
pub record IsMadeOf (int_of : String → Result ℕ) (listing : String)
    (content : List Wanted → Wanted → Content) (docs : Docs) : Type 0 where
  pub wanted : List Wanted
  pub listed : wanted_docs int_of listing ≡ ok wanted
  pub made : docs ≡ docs_of (content wanted) wanted []

-- The branch of the URL has been at the commit, and the documents are made of what it holds.
abbrev pub WasLoaded :
    {Tree : Type 0} → Facts Tree → (String → Result ℕ) → Fingerprint → String → Docs → Type 0
WasLoaded facts int_of fingerprint head docs =
    facts.WasAt fingerprint head × IsMadeOf int_of (facts.listing head) (facts.content head) docs

module _ {Tree : Type 0} where
  Done-map :
      {P Q : Tree → Type 0} (o : Outcome Tree) → Done P o → ((t : Tree) → P t → Q t) → Done Q o
  Done-map (stopped timed_out left) h f = tt
  Done-map (done tree) h f = f tree h

  Done-then_do :
      {P : Tree → Type 0} (Q : Tree → Type 0) (o : Outcome Tree) (next : Tree → Outcome Tree)
      → Done P o
      → ((t : Tree) → P t → Done Q (next t))
      → Done Q (then_do o next)
  Done-then_do Q (stopped timed_out left) next h f = tt
  Done-then_do Q (done tree) next h f = f tree h

module _ {Tree : Type 0} (facts : Facts Tree) (git : Tool Tree) (is_git : IsGit facts git) where
  fetched-WasAt :
      (branch : String) (tree : Tree)
      → Done
          (λ t. facts.WasAt (facts.origin tree, branch) (facts.fetch_head t))
          (fetched git branch tree)
  unfolding fetched
  fetched-WasAt branch tree = go (git.is_shallow tree)
    where
      either :
          (shallow : Bool)
          → Done
              (λ t. facts.WasAt (facts.origin tree, branch) (facts.fetch_head t))
              (fetch_as git shallow branch tree)
      either true = is_git.deepens branch tree
      either false = is_git.fetches branch tree

      go :
          (g : Git String)
          → Done
              (λ t. facts.WasAt (facts.origin tree, branch) (facts.fetch_head t))
              (elim g [
                | failed timed_out ↦ stopped timed_out (some tree)
                | gave text ↦ fetch_as git (strip text == "true") branch tree
              ])
      go (failed timed_out) = tt
      go (gave text) = either (strip text == "true")

  checked_out-WasAt :
      (url branch : String) (clone : Option Tree)
      → Done (λ t. facts.WasAt (url, branch) (facts.head t)) (checked_out git url branch clone)
  unfolding checked_out
  checked_out-WasAt url branch none = is_git.clones branch url
  checked_out-WasAt url branch (some tree) =
      Done-then_do _ (git.set_url url tree) _ (is_git.sets url tree) reach
    where
      reach :
          (t : Tree)
          → facts.origin t ≡ url
          → Done
              (λ u. facts.WasAt (url, branch) (facts.head u))
              (then_do (fetched git branch t) git.reset)
      reach t e = Done-then_do _ (fetched git branch t) git.reset (fetched-WasAt branch t) (λ u was.
          Done-map (git.reset u) (is_git.resets u) (λ w at.
            subst (λ commit. facts.WasAt (url, branch) commit) (sym at)
              (subst (λ x. facts.WasAt (x, branch) (facts.fetch_head u)) e was)))

module _ (int_of : String → Result ℕ) (listing : String) (content : List Wanted → Wanted → Content)
    (docs : Docs) where
  made_of :
      (text : String) (wanted : List Wanted) (r : Git (Wanted → Content))
      → text ≡ listing
      → wanted_docs int_of text ≡ ok wanted
      → Given (λ c. c ≡ content wanted) r
      → elim r [ failed timed_out ↦ failed timed_out | gave c ↦ gave (ok (docs_of c wanted [])) ]
        ≡ gave (ok docs)
      → IsMadeOf int_of listing content docs
  made_of text wanted (failed timed_out) e listed reads h =
      absurd
        (let no_docs : ◌≡◌ {A = Git (Result Docs)} (failed timed_out) (gave (ok docs)) = h in cc)
  made_of text wanted (gave c) e listed reads h = record {
    wanted = wanted;
    listed = subst (λ t. wanted_docs int_of t ≡ ok wanted) e listed;
    made = sym (given_inj _ docs h) ∙ ap (λ c. docs_of c wanted []) reads;
  }
    where
      given_inj : (a b : Docs) → ◌≡◌ {A = Git (Result Docs)} (gave (ok a)) (gave (ok b)) → a ≡ b
      given_inj a b h = cc

  load_docs-IsMadeOf :
      (text : Git String) (read : List Wanted → Git (Wanted → Content))
      → Given (λ t. t ≡ listing) text
      → ((wanted : List Wanted) → Given (λ c. c ≡ content wanted) (read wanted))
      → load_docs int_of text read ≡ gave (ok docs)
      → IsMadeOf int_of listing content docs
  unfolding load_docs
  load_docs-IsMadeOf (failed timed_out) read lists reads h =
      absurd
        (let no_docs : ◌≡◌ {A = Git (Result Docs)} (failed timed_out) (gave (ok docs)) = h in cc)
  load_docs-IsMadeOf (gave text) read lists reads h = go (wanted_docs int_of text) refl h
    where
      go :
          (w : Result (List Wanted))
          → wanted_docs int_of text ≡ w
          → elim w [
            | err e ↦ gave (err e)
            | ok wanted ↦ elim (read wanted) [
              | failed timed_out ↦ failed timed_out
              | gave c ↦ gave (ok (docs_of c wanted []))
            ]
          ]
            ≡ gave (ok docs)
          → IsMadeOf int_of listing content docs
      go (err e) listed h =
          absurd
            (let no_docs : ◌≡◌ {A = Git (Result Docs)} (gave (err e)) (gave (ok docs)) = h in cc)
      go (ok wanted) listed h = made_of text wanted (read wanted) lists listed (reads wanted) h

-- A visit reads only snapshots of the specification that are their own, whatever is on disk.
pub record IsFaithful {Tree : Type 0} (Loaded : Fingerprint → String → Docs → Type 0) (rt : Runtime)
    (int_of : String → Result ℕ) (v : Visit Tree) : Type 0 where
  pub reads :
      (spec : Spec) (cached : Option Snapshot) (clones : Dict String Tree)
      → MayOwn Loaded cached
      → Reads Loaded spec.fingerprint (refreshed rt int_of v spec cached clones).0

module _ {Tree : Type 0} (facts : Facts Tree) (rt : Runtime) (int_of : String → Result ℕ)
    (v : Visit Tree) (is_git : IsGit facts v.git) (spec : Spec) (cached : Option Snapshot)
    (h : MayOwn (WasLoaded facts int_of) cached) where
  snapshot_at-Reads :
      (tree : Tree) (head : String)
      → facts.WasAt spec.fingerprint head
      → Reads
          (WasLoaded facts int_of)
          spec.fingerprint
          (snapshot_at rt int_of v spec cached tree head)
  unfolding snapshot_at
  snapshot_at-Reads tree head was = go (is_unchanged cached head spec.fingerprint) refl
    where
      go :
          (o : Option Docs)
          → is_unchanged cached head spec.fingerprint ≡ o
          → Reads (WasLoaded facts int_of) spec.fingerprint (elim o [
            | some docs ↦ gave (ok (snapshot_of spec head v.now_after docs))
            | none ↦
                read_of spec head v.now_after
                  (load_docs int_of (v.git.list_tree tree head) (v.git.read tree head))
          ])
      go (some docs) e =
          (refl, is_unchanged-Loaded (WasLoaded facts int_of) cached head spec.fingerprint docs h e)
      go none e = read_of-Reads (WasLoaded facts int_of) spec head v.now_after _ (λ docs loaded. (
        was,
        load_docs-IsMadeOf int_of (facts.listing head) (facts.content head) docs _ _
            (is_git.lists tree head) (is_git.reads tree head) loaded,
      ))

  snapshot_in-Reads :
      (o : Outcome Tree)
      → Done (λ t. facts.WasAt spec.fingerprint (facts.head t)) o
      → Reads (WasLoaded facts int_of) spec.fingerprint (snapshot_in rt int_of v spec cached o)
  unfolding snapshot_in
  snapshot_in-Reads (stopped timed_out left) was = tt
  snapshot_in-Reads (done tree) was = go (v.git.rev_parse tree) (is_git.tells tree)
    where
      go :
          (g : Git String)
          → Given (λ text. strip text ≡ facts.head tree) g
          → Reads (WasLoaded facts int_of) spec.fingerprint (elim g [
            | failed timed_out ↦ failed timed_out
            | gave text ↦ snapshot_at rt int_of v spec cached tree (strip text)
          ])
      go (failed timed_out) tells = tt
      go (gave text) tells =
          snapshot_at-Reads tree (strip text)
            (subst (λ head. facts.WasAt spec.fingerprint head) (sym tells) was)

  refreshed-Reads :
      (clones : Dict String Tree)
      → Reads (WasLoaded facts int_of) spec.fingerprint (refreshed rt int_of v spec cached clones).0
  unfolding refreshed
  refreshed-Reads clones = snapshot_in-Reads _ (
      checked_out-WasAt facts v.git is_git spec.fingerprint.0 spec.fingerprint.1
        (get (clone_name rt spec.project spec.fingerprint.0) clones))

-- Where git does as documented, a visit reads the documents of what the branch has been at.
pub IsGit-IsFaithful :
    {Tree : Type 0} (facts : Facts Tree) (rt : Runtime) (int_of : String → Result ℕ)
    (v : Visit Tree)
    → IsGit facts v.git
    → IsFaithful (WasLoaded facts int_of) rt int_of v
IsGit-IsFaithful facts rt int_of v is_git = record {
  reads = λ spec cached clones h. refreshed-Reads facts rt int_of v is_git spec cached h clones;
}
