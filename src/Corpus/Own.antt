-- ===== src/Corpus/Own.antt =====
-- Where a snapshot's documents come from. Code: `_eligible_snapshot` and `_refresh` of
-- mcp_governance_gateway/docs_backend.py.
use mcp_governance_gateway.Base.{
  ℕ, ◌-◌, String, ◌≡◌, refl, subst, inl, inr, Option, none, some, ltb, Bool-cases,
}
use mcp_governance_gateway.Base.Dict.{get, put, get-put}
use mcp_governance_gateway.Base.Eq.{◌==◌, string_eq, pair_eq, nat_eq, option_eq, list_eq}
use mcp_governance_gateway.Errors.{Result, ok, err}
use mcp_governance_gateway.Corpus.Load.{Docs}
use mcp_governance_gateway.Corpus.Clone.{Git, failed, gave}
use mcp_governance_gateway.Corpus.{
  Fingerprint, Spec, Snapshot, Corpus, eligible, is_unchanged, read_of,
}

-- `Loaded` tells which heads a repository's branch has had, with which documents.
module _ (Loaded : Fingerprint → String → Docs → Type 0) where
  -- A snapshot has a head of its specification, with the documents of it.
  abbrev pub IsOwn : Snapshot → Type 0
  IsOwn snap = Loaded snap.spec snap.head snap.docs

  -- So has each cached one.
  pub record AreOwn {Tree : Type 0} (c : Corpus Tree) : Type 0 where
    pub own :
        (project : String) (snap : Snapshot) → get project c.snapshots ≡ some snap → IsOwn snap

  -- A result that is a snapshot of the specification, and its own.
  abbrev pub Serves : Fingerprint → Result Snapshot → Type 0
  Serves fingerprint (ok snap) = (snap.spec ≡ fingerprint) × IsOwn snap
  Serves fingerprint (err e) = Unit

  abbrev pub Reads : Fingerprint → Git (Result Snapshot) → Type 0
  Reads fingerprint (gave r) = Serves fingerprint r
  Reads fingerprint (failed timed_out) = Unit

  abbrev pub MayServe : Fingerprint → Option Snapshot → Type 0
  MayServe fingerprint (some snap) = (snap.spec ≡ fingerprint) × IsOwn snap
  MayServe fingerprint none = Unit

  abbrev pub MayOwn : Option Snapshot → Type 0
  MayOwn (some snap) = IsOwn snap
  MayOwn none = Unit

  pub put-AreOwn :
      {Tree : Type 0} (c : Corpus Tree) (project : String) (snap : Snapshot)
      → AreOwn c
      → IsOwn snap
      → AreOwn (record c { snapshots = put project snap c.snapshots })
  put-AreOwn c project snap h mine = record {
    own = λ p found there. elim (Bool-cases (project == p)) [
      | inl same ↦
          let eq : some snap ≡ some found = rw (get-put, same) at there in
          let e : snap ≡ found = cc in subst IsOwn e mine
      | inr other ↦ h.own p found (rw (get-put, other) at there)
    ];
  }

  pub cached-MayOwn :
      {Tree : Type 0} (c : Corpus Tree) (project : String)
      → AreOwn c
      → MayOwn (get project c.snapshots)
  cached-MayOwn c project h = go (get project c.snapshots) refl
    where
      go : (o : Option Snapshot) → get project c.snapshots ≡ o → MayOwn o
      go none e = tt
      go (some snap) e = h.own project snap e

  pub eligible-MayServe :
      (pull_interval : ℕ) (cached : Option Snapshot) (fingerprint : Fingerprint) (now : ℕ)
      → MayOwn cached
      → MayServe fingerprint (eligible pull_interval cached fingerprint now)
  unfolding eligible
  eligible-MayServe pull_interval none fingerprint now h = tt
  eligible-MayServe pull_interval (some snap) fingerprint now h =
      elim (Bool-cases (snap.spec == fingerprint)) [
        | inr other ↦ rw (other) tt
        | inl same ↦ elim (Bool-cases (ltb (now - snap.refreshed_at) pull_interval)) [
          | inr old ↦ rw (same, old) tt
          | inl fresh ↦ rw (same, fresh) ((pair_eq.beq_iff snap.spec fingerprint).0 same, h)
        ]
      ]

  pub is_unchanged-Loaded :
      (cached : Option Snapshot) (head : String) (fingerprint : Fingerprint) (docs : Docs)
      → MayOwn cached
      → is_unchanged cached head fingerprint ≡ some docs
      → Loaded fingerprint head docs
  is_unchanged-Loaded none head fingerprint docs h e = absurd (let no : none ≡ some docs = e in cc)
  is_unchanged-Loaded (some previous) head fingerprint docs h e =
      elim (Bool-cases (previous.head == head)) [
        | inr other ↦ absurd (let no : none ≡ some docs = rw (other) at e in cc)
        | inl same_head ↦ elim (Bool-cases (previous.spec == fingerprint)) [
          | inr other ↦ absurd (let no : none ≡ some docs = rw (same_head, other) at e in cc)
          | inl same ↦
              let eq : some previous.docs ≡ some docs = rw (same_head, same) at e in
              let docs_eq : previous.docs ≡ docs = cc in
              let spec_eq = (pair_eq.beq_iff previous.spec fingerprint).0 same in
              let head_eq = (string_eq.beq_iff previous.head head).0 same_head in
              subst (λ f. Loaded f head docs) spec_eq
                (subst (λ x. Loaded previous.spec x docs) head_eq
                  (subst (Loaded previous.spec previous.head) docs_eq h))
        ]
      ]

  pub read_of-Reads :
      (spec : Spec) (head : String) (now : ℕ) (r : Git (Result Docs))
      → ((docs : Docs) → r ≡ gave (ok docs) → Loaded spec.fingerprint head docs)
      → Reads spec.fingerprint (read_of spec head now r)
  read_of-Reads spec head now (failed timed_out) h = tt
  read_of-Reads spec head now (gave (err e)) h = tt
  read_of-Reads spec head now (gave (ok docs)) h = (refl, h docs refl)
