-- ===== src/Corpus/Repos/Apart.antt =====
-- No repository is two projects'. Code: `load_docs_repos` of
-- mcp_governance_gateway/docs_backend.py.
use mcp_governance_gateway.Base.{
  String, ◌≡◌, refl, sym, subst, ap, ◌∙◌, inl, inr, true, false, Option, none, some, List, [], ◌∷◌,
  arith, Bool-cases,
}
use mcp_governance_gateway.Base.Dict.{get, put, get-put}
use mcp_governance_gateway.Base.Eq.{◌==◌, string_eq, contains}
use mcp_governance_gateway.Errors.{Result, ok, err, ◌>>=◌, ok_inj}
use mcp_governance_gateway.Review.{ReviewSpec}
use mcp_governance_gateway.Runtime.{Runtime}
use mcp_governance_gateway.Value.{
  Value, null, str, obj, arr, bool, int, float, Args, entries, get_value, truthy,
}
use mcp_governance_gateway.Corpus.Repos.{
  RepoEntry, RepoMap, is_project_key, branch_of, entry_of, add_repos, load_docs_repos,
}

module _ (rt : Runtime) (casefold : String → String) where
  -- No two projects have one URL, and the URLs are among those seen.
  record AreApart (urls : List String) (repos : RepoMap) : Type 0 where
    seen :
        (p : String) (a : RepoEntry) → get p repos ≡ some a → contains (casefold a.url) urls ≡ true
    apart :
        (p q : String) (a b : RepoEntry)
        → get p repos ≡ some a
        → get q repos ≡ some b
        → casefold a.url ≡ casefold b.url
        → p ≡ q

  entry_of-new :
      (urls : List String) (project : String) (spec : Value) (entry : RepoEntry)
      → entry_of rt casefold urls project spec ≡ ok entry
      → contains (casefold entry.url) urls ≡ false
  unfolding entry_of
  entry_of-new urls project (obj fs) entry h =
      elim (Bool-cases (truthy (get_value (entries fs) "url"))) [
        | inr no_url ↦ absurd (let no : err _ ≡ ok entry = rw (no_url) at h in cc)
        | inl url ↦
            elim (Bool-cases
              (contains (casefold (rt.str_of (get_value (entries fs) "url"))) urls)) [
                | inl taken ↦ absurd (let no : err _ ≡ ok entry = rw (url, taken) at h in cc)
                | inr free ↦ go _ free (rw (url, free) at h)
              ]
      ]
    where
      go :
          (r : Result (Option ReviewSpec))
          → contains (casefold (rt.str_of (get_value (entries fs) "url"))) urls ≡ false
          → (r >>= λ review. ok (record {
            url = rt.str_of (get_value (entries fs) "url");
            branch = branch_of rt (entries fs);
            review = review;
          }))
            ≡ ok entry
          → contains (casefold entry.url) urls ≡ false
      go (err e) free h = absurd (let no : err e ≡ ok entry = h in cc)
      go (ok review) free h =
          let same : rt.str_of (get_value (entries fs) "url") ≡ entry.url =
            ap (λ e. e.url) (ok_inj _ entry h) in
          subst (λ url. contains (casefold url) urls ≡ false) same free
  entry_of-new urls project null entry h = absurd (let no : err _ ≡ ok entry = h in cc)
  entry_of-new urls project (str s) entry h = absurd (let no : err _ ≡ ok entry = h in cc)
  entry_of-new urls project (arr vs) entry h = absurd (let no : err _ ≡ ok entry = h in cc)
  entry_of-new urls project (bool b) entry h = absurd (let no : err _ ≡ ok entry = h in cc)
  entry_of-new urls project (int n) entry h = absurd (let no : err _ ≡ ok entry = h in cc)
  entry_of-new urls project (float x) entry h = absurd (let no : err _ ≡ ok entry = h in cc)

  put-AreApart :
      (urls : List String) (repos : RepoMap) (project : String) (entry : RepoEntry)
      → AreApart urls repos
      → contains (casefold entry.url) urls ≡ false
      → AreApart (casefold entry.url ∷ urls) (put project entry repos)
  put-AreApart urls repos project entry h new = record {
    seen = λ p a there. elim (Bool-cases (project == p)) [
      | inl same ↦
          let eq : some entry ≡ some a = rw (get-put, same) at there in
          let e : entry ≡ a = cc in
          rw (← e, (string_eq.beq_iff (casefold entry.url) (casefold entry.url)).1 refl)
      | inr other ↦
          let old : get p repos ≡ some a = rw (get-put, other) at there in
          ground (arith, h.seen p a old)
    ];
    apart = λ p q a b at_p at_q urls_eq. elim (Bool-cases (project == p)) [
      | inl sp ↦ elim (Bool-cases (project == q)) [
        | inl sq ↦ sym ((string_eq.beq_iff project p).0 sp) ∙ (string_eq.beq_iff project q).0 sq
        | inr oq ↦
            let eq : some entry ≡ some a = rw (get-put, sp) at at_p in
            let e : entry ≡ a = cc in
            let old : get q repos ≡ some b = rw (get-put, oq) at at_q in
            absurd (
              let no : false ≡ true =
                clash b (ap (λ x. casefold x.url) e ∙ urls_eq) (h.seen q b old) in
              cc)
      ]
      | inr op ↦ elim (Bool-cases (project == q)) [
        | inl sq ↦
            let eq : some entry ≡ some b = rw (get-put, sq) at at_q in
            let e : entry ≡ b = cc in
            let old : get p repos ≡ some a = rw (get-put, op) at at_p in
            absurd (
              let no : false ≡ true =
                clash a (ap (λ x. casefold x.url) e ∙ sym urls_eq) (h.seen p a old) in
              cc)
        | inr oq ↦ h.apart p q a b (rw (get-put, op) at at_p) (rw (get-put, oq) at at_q) urls_eq
      ]
    ];
  }
    where
      clash :
          (b : RepoEntry)
          → casefold entry.url ≡ casefold b.url
          → contains (casefold b.url) urls ≡ true
          → false ≡ true
      clash b same there = sym new ∙ ap (λ u. contains u urls) same ∙ there

  add_repos-AreApart :
      (more : Args) (urls : List String) (repos found : RepoMap)
      → AreApart urls repos
      → add_repos rt casefold more urls repos ≡ ok found
      → (last : List String) × AreApart last found
  unfolding add_repos
  add_repos-AreApart [] urls repos found h e =
      (urls, subst (AreApart urls) (ok_inj repos found e) h)
  add_repos-AreApart ((project, spec) ∷ more) urls repos found h e =
      elim (Bool-cases (project == "_comment")) [
        | inl comment ↦ add_repos-AreApart more urls repos found h (rw (comment) at e)
        | inr named ↦ elim (Bool-cases (is_project_key project)) [
          | inr bad ↦ absurd (let no : err _ ≡ ok found = rw (named, bad) at e in cc)
          | inl good ↦
              go (entry_of rt casefold urls project spec) refl (rw (named, good) at e) (λ entry new.
                add_repos-AreApart more (casefold entry.url ∷ urls) (put project entry repos) found
                  (put-AreApart urls repos project entry h new))
        ]
      ]
    where
      go :
          (r : Result RepoEntry)
          → entry_of rt casefold urls project spec ≡ r
          → (r >>= λ entry.
              add_repos rt casefold more (casefold entry.url ∷ urls) (put project entry repos))
            ≡ ok found
          → ((entry : RepoEntry)
              → contains (casefold entry.url) urls ≡ false
              → add_repos rt casefold more (casefold entry.url ∷ urls) (put project entry repos)
                ≡ ok found
              → (last : List String) × AreApart last found)
          → (last : List String) × AreApart last found
      go (err x) known e next = absurd (let no : err x ≡ ok found = e in cc)
      go (ok entry) known e next = next entry (entry_of-new urls project spec entry known) e

  empty-AreApart : AreApart [] []
  unfolding get
  empty-AreApart = record {
    seen = λ p a no. absurd (let bad : none ≡ some a = no in cc);
    apart = λ p q a b no other urls_eq. absurd (let bad : none ≡ some a = no in cc);
  }

  loaded-AreApart :
      (content : Result Value) (found : RepoMap)
      → load_docs_repos rt casefold content ≡ ok found
      → (last : List String) × AreApart last found
  unfolding load_docs_repos
  loaded-AreApart (ok (obj fs)) found h =
      add_repos-AreApart (entries fs) [] [] found empty-AreApart h
  loaded-AreApart (err e) found h = absurd (let no : err _ ≡ ok found = h in cc)
  loaded-AreApart (ok null) found h = absurd (let no : err _ ≡ ok found = h in cc)
  loaded-AreApart (ok (str s)) found h = absurd (let no : err _ ≡ ok found = h in cc)
  loaded-AreApart (ok (arr vs)) found h = absurd (let no : err _ ≡ ok found = h in cc)
  loaded-AreApart (ok (bool b)) found h = absurd (let no : err _ ≡ ok found = h in cc)
  loaded-AreApart (ok (int n)) found h = absurd (let no : err _ ≡ ok found = h in cc)
  loaded-AreApart (ok (float x)) found h = absurd (let no : err _ ≡ ok found = h in cc)

-- In a repositories file that loads, no two projects have the same repository URL, whatever the
-- case of its letters.
pub load_docs_repos-distinct :
    (rt : Runtime) (casefold : String → String) (content : Result Value) (repos : RepoMap)
    (p q : String) (a b : RepoEntry)
    → load_docs_repos rt casefold content ≡ ok repos
    → get p repos ≡ some a
    → get q repos ≡ some b
    → casefold a.url ≡ casefold b.url
    → p ≡ q
load_docs_repos-distinct rt casefold content repos p q a b h =
    (loaded-AreApart rt casefold content repos h).1.apart p q a b
