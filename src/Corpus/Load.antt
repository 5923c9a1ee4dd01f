-- ===== src/Corpus/Load.antt =====
-- Which files of a repository are served, and the caps on them.
-- Code: `_load_docs` of mcp_governance_gateway/docs_backend.py, from the tree listing on.
-- `int_of` is `int(text)`.
pub mod Paths
pub mod Caps
use mcp_governance_gateway.Base.{
  ℕ, ◌+◌, ◌*◌, String, ◌<>◌, Bool, false, not, ◌&&◌, ◌||◌, Option, none, some, List, [], ◌∷◌,
  length, ltb, if◌then◌else◌,
}
use mcp_governance_gateway.Base.Dict.{Dict, put}
use mcp_governance_gateway.Base.Text.{
  is_empty, split, before, behind, words, starts_with, ends_with, show,
}
use mcp_governance_gateway.Base.Eq.{◌==◌, string_eq}
use mcp_governance_gateway.Errors.{backend_error, Result, ok, err, ◌>>=◌}
use mcp_governance_gateway.Value.{Args}

abbrev pub max_docs : ℕ
max_docs = 5000

abbrev pub max_doc_bytes : ℕ
max_doc_bytes = 2 * 1024 * 1024

abbrev pub max_corpus_bytes : ℕ
max_corpus_bytes = 64 * 1024 * 1024

-- PurePosixPath(path).parts of a relative path.
unfoldable pub real_parts : List String → List String
real_parts [] = []
real_parts (p ∷ ps) =
    let rest = real_parts ps in if is_empty p || (p == ".") then rest else p ∷ rest

abbrev pub path_parts : String → List String
path_parts path = real_parts (split b'/' path)

unfoldable pub any_hidden : List String → Bool
unfolding starts_with
any_hidden [] = false
any_hidden (p ∷ ps) = starts_with p "." || any_hidden ps

abbrev pub in_served_dirs : String → Bool
in_served_dirs rel = starts_with rel "raw/" || starts_with rel "wiki/"

-- The tests of a path.
unfoldable pub is_served : String → Bool
unfolding starts_with ends_with any_hidden real_parts split
is_served rel = ends_with rel ".md" && in_served_dirs rel && not (any_hidden (path_parts rel))

-- A wanted document: its path, its blob and its size.
pub record Wanted : Type 0 where
  pub rel : String
  pub oid : String
  pub nbytes : ℕ

-- `mode` and `kind` of a regular file.
abbrev pub is_regular : String → String → Bool
is_regular mode kind = (kind == "blob") && ((mode == "100644") || (mode == "100755"))

-- A file that is served, with its size.
unfoldable pub sized_at : String → String → ℕ → Result (Option Wanted)
unfolding show
sized_at rel oid nbytes =
    if ltb max_doc_bytes nbytes
    then err (
        backend_error ("docs corpus exceeds limits: " <> rel <> " is " <> show nbytes <> " bytes")
          (some 503))
    else ok (some (record { rel = rel; oid = oid; nbytes = nbytes }))

abbrev pub with_wanted : Option Wanted → List Wanted → List Wanted
with_wanted none wanted = wanted
with_wanted (some w) wanted = w ∷ wanted

unfoldable pub total : List Wanted → ℕ
total [] = 0
total (w ∷ ws) = w.nbytes + total ws

unfoldable pub capped : List Wanted → Result (List Wanted)
unfolding total show
capped wanted =
    if ltb max_docs (length wanted)
    then err (
        backend_error ("docs corpus exceeds limits: " <> show (length wanted) <> " documents")
          (some 503))
    else if ltb max_corpus_bytes (total wanted)
    then err (
        backend_error
          ("docs corpus exceeds limits: " <> show (total wanted) <> " bytes of markdown")
          (some 503))
    else ok wanted

module _ (int_of : String → Result ℕ) where
  unfoldable pub sized : String → String → String → Result (Option Wanted)
  unfolding sized_at ◌>>=◌
  sized rel oid size = int_of size >>= sized_at rel oid

  -- The fields of an entry's info and its path.
  unfoldable pub wanted_of : List String → String → Result (Option Wanted)
  unfolding is_served sized
  wanted_of (mode ∷ kind ∷ oid ∷ size ∷ []) rel =
      if not (is_empty rel) && is_regular mode kind && is_served rel
      then sized rel oid size
      else ok none
  wanted_of _ rel = ok none

  -- The loop over the listing.
  unfoldable pub wanted_in : List String → Result (List Wanted)
  unfolding wanted_of before behind words ◌>>=◌
  wanted_in [] = ok []
  wanted_in (entry ∷ listing) =
      let rest = wanted_in listing in
      wanted_of (words (before b'\t' entry)) (behind b'\t' entry) >>= λ first.
      rest >>= λ wanted. ok (with_wanted first wanted)

  unfoldable pub wanted_docs : String → Result (List Wanted)
  unfolding wanted_in capped split ◌>>=◌
  wanted_docs listing = wanted_in (split 0 listing) >>= capped

-- What a document has from its blob and from the log: neither is looked into.
pub record Content : Type 0 where
  pub title : String
  pub text : String
  pub meta : Args
  pub created_by : Option String
  pub updated_by : Option String

pub record Doc : Type 0 where
  pub path : String
  pub content : Content
  pub blob : String

abbrev pub Docs : Type 0
Docs = Dict String Doc

-- The documents in the listing's order. `content` reads a wanted document.
unfoldable pub docs_of : (Wanted → Content) → List Wanted → Docs → Docs
unfolding put
docs_of content [] docs = docs
docs_of content (w ∷ wanted) docs =
    docs_of content wanted
      (put w.rel (record { path = w.rel; content = content w; blob = w.oid }) docs)
