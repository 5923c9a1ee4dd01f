-- ===== src/Corpus/Load/Caps.antt =====
-- What is served of a repository, and how much. Code: `_load_docs` of
-- mcp_governance_gateway/docs_backend.py, `_require_servable` of
-- mcp_governance_gateway/docs_review.py.
use mcp_governance_gateway.Base.{
  ℕ, ◌≤◌, String, ◌≡◌, refl, subst, inl, inr, true, false, not, ◌&&◌, Option, none, some, List, [],
  ◌∷◌, All, length, ltb, arith, Bool-cases,
}
use mcp_governance_gateway.Base.Text.{is_empty, split, before, behind, words}
use mcp_governance_gateway.Base.Eq.{string_eq}
use mcp_governance_gateway.Errors.{Result, ok, err, ◌>>=◌}
use mcp_governance_gateway.Review.{is_servable, has_bad_part}
use mcp_governance_gateway.Corpus.Load.Paths.{IsServed, is_served-IsServed}
use mcp_governance_gateway.Corpus.Load.{
  max_docs, max_doc_bytes, max_corpus_bytes, real_parts, any_hidden, is_served, Wanted, sized,
  sized_at, wanted_of, with_wanted, wanted_in, total, capped, wanted_docs, is_regular,
}

-- A document that may be served.
pub record IsWanted (w : Wanted) : Type 0 where
  pub served : IsServed w.rel
  pub small : w.nbytes ≤ max_doc_bytes

-- What a result wants, each may be served.
abbrev AreWanted : Result (List Wanted) → Type 0
AreWanted (ok wanted) = All IsWanted wanted
AreWanted (err e) = Unit

abbrev MayWant : Result (Option Wanted) → Type 0
MayWant (ok (some w)) = IsWanted w
MayWant (ok none) = Unit
MayWant (err e) = Unit

module _ (int_of : String → Result ℕ) where
  sized-MayWant :
      (rel oid size : String) → is_served rel ≡ true → MayWant (sized int_of rel oid size)
  unfolding sized sized_at
  sized-MayWant rel oid size served = go (int_of size)
    where
      go : (r : Result ℕ) → MayWant (r >>= sized_at rel oid)
      go (err e) = tt
      go (ok n) = elim (Bool-cases (ltb max_doc_bytes n)) [
        | inl big ↦ rw (big) tt
        | inr fits ↦
            rw (fits) (record { served = is_served-IsServed rel served; small = ground arith })
      ]

  wanted_of-MayWant : (info : List String) (rel : String) → MayWant (wanted_of int_of info rel)
  unfolding wanted_of
  wanted_of-MayWant (mode ∷ kind ∷ oid ∷ size ∷ []) rel =
      elim (Bool-cases (not (is_empty rel) && is_regular mode kind && is_served rel)) [
        | inl want ↦ rw (want) (sized-MayWant rel oid size (ground arith))
        | inr skip ↦ rw (skip) tt
      ]
  wanted_of-MayWant [] rel = tt
  wanted_of-MayWant (a ∷ []) rel = tt
  wanted_of-MayWant (a ∷ b ∷ []) rel = tt
  wanted_of-MayWant (a ∷ b ∷ c ∷ []) rel = tt
  wanted_of-MayWant (a ∷ b ∷ c ∷ d ∷ e ∷ more) rel = tt

  wanted_in-AreWanted : (listing : List String) → AreWanted (wanted_in int_of listing)
  unfolding wanted_in
  wanted_in-AreWanted [] = tt
  wanted_in-AreWanted (entry ∷ listing) =
      go _ _ (wanted_of-MayWant (words (before b'\t' entry)) (behind b'\t' entry))
        (wanted_in-AreWanted listing)
    where
      go :
          (first : Result (Option Wanted)) (rest : Result (List Wanted))
          → MayWant first
          → AreWanted rest
          → AreWanted (first >>= λ f. rest >>= λ wanted. ok (with_wanted f wanted))
      go (err e) rest h k = tt
      go (ok none) (err e) h k = tt
      go (ok (some w)) (err e) h k = tt
      go (ok none) (ok wanted) h k = k
      go (ok (some w)) (ok wanted) h k = (h, k)

capped-ok :
    (found wanted : List Wanted)
    → capped found ≡ ok wanted
    → (found ≡ wanted) × (length wanted ≤ max_docs) × (total wanted ≤ max_corpus_bytes)
unfolding capped
capped-ok found wanted h = elim (Bool-cases (ltb max_docs (length found))) [
  | inl many ↦ absurd (let no : err _ ≡ ok wanted = rw (many) at h in cc)
  | inr few ↦ elim (Bool-cases (ltb max_corpus_bytes (total found))) [
    | inl big ↦ absurd (let no : err _ ≡ ok wanted = rw (few, big) at h in cc)
    | inr fits ↦
        let same : ok found ≡ ok wanted = rw (few, fits) at h in
        let eq : found ≡ wanted = cc in (eq, rw (← eq) (ground arith), rw (← eq) (ground arith))
  ]
]

-- Where the tree listing gives documents, each has a path that begins with raw/ or wiki/, ends in .md
-- and has behind no slash a full stop, unless the part is that alone; each is at most 2 MiB, and they
-- are at most 5000 and together at most 64 MiB.
pub wanted_docs-AreCapped :
    (int_of : String → Result ℕ) (listing : String) (wanted : List Wanted)
    → wanted_docs int_of listing ≡ ok wanted
    → All IsWanted wanted × (length wanted ≤ max_docs) × (total wanted ≤ max_corpus_bytes)
unfolding wanted_docs
wanted_docs-AreCapped int_of listing wanted h =
    go _ (wanted_in-AreWanted int_of (split 0 listing)) h
  where
    go :
        (r : Result (List Wanted))
        → AreWanted r
        → (r >>= capped) ≡ ok wanted
        → All IsWanted wanted × (length wanted ≤ max_docs) × (total wanted ≤ max_corpus_bytes)
    go (err e) each h = absurd (let no : err e ≡ ok wanted = h in cc)
    go (ok found) each h =
        let (eq, few, small) = capped-ok found wanted h in
        (subst (All IsWanted) eq each, few, small)

any_hidden-real_parts :
    (ps : List String) → has_bad_part ps ≡ false → any_hidden (real_parts ps) ≡ false
unfolding has_bad_part any_hidden real_parts
any_hidden-real_parts [] h = refl
any_hidden-real_parts (p ∷ ps) h = ground (arith, any_hidden-real_parts ps)

-- A path that a proposal may name is one that the corpus would serve.
pub is_servable-is_served : (path : String) → is_servable path ≡ true → is_served path ≡ true
unfolding is_servable is_served
is_servable-is_served path h = ground (arith, any_hidden-real_parts (split b'/' path))
