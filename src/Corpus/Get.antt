-- ===== src/Corpus/Get.antt =====
-- A document of the corpus. Code: `get` and `_normalize` of
-- mcp_governance_gateway/docs_backend.py, `_display_actor` of
-- mcp_governance_gateway/memory_backend.py.
use mcp_governance_gateway.Base.{ℕ, String, Option, none, some, [], ◌∷◌, ◌++◌, if◌then◌else◌}
use mcp_governance_gateway.Base.Dict.{Dict, get, put}
use mcp_governance_gateway.Base.Text.{is_empty, strip, join, before, lstrip_char}
use mcp_governance_gateway.Base.Eq.{string_eq, pair_eq, nat_eq, option_eq, list_eq}
use mcp_governance_gateway.Errors.{backend_error, Result, ok, err, ◌>>=◌}
use mcp_governance_gateway.Runtime.{Runtime}
use mcp_governance_gateway.Value.{Value, str, Args, dict}
use mcp_governance_gateway.Corpus.Load.{Doc, path_parts}
use mcp_governance_gateway.Corpus.{Snapshot, Visit, Corpus, snapshot_for}

-- _display_actor, of a name that is there.
unfoldable pub display_actor : String → Dict String String → String
unfolding get before
display_actor value labels = elim (get value labels) [
  | none ↦ before b'@' value
  | some email ↦ if is_empty email then before b'@' value else before b'@' email
]

-- str(PurePosixPath(path.strip().lstrip("/")))
unfoldable pub normalize : String → String
unfolding strip lstrip_char join
normalize path =
    let parts = path_parts (lstrip_char b'/' (strip path)) in
    let whole = join "/" parts in if is_empty whole then "." else whole

abbrev pub with_actor : String → Option String → Dict String String → Args
with_actor key none labels = []
with_actor key (some name) labels =
    if is_empty name then [] else (key, str (display_actor name labels)) ∷ []

unfoldable pub shown : Snapshot → Dict String String → Doc → Value
unfolding display_actor dict put
shown snap labels doc = dict (
    ("path", str doc.path)
    ∷ ("title", str doc.content.title)
    ∷ ("frontmatter", dict doc.content.meta)
    ∷ ("text", str doc.content.text)
    ∷ ("commit", str snap.head)
    ∷ ("sha", str doc.blob)
    ∷ (with_actor "createdBy" doc.content.created_by labels
        ++ with_actor "updatedBy" doc.content.updated_by labels))

-- A document of the snapshot: nothing else is looked at.
unfoldable pub document_in : Snapshot → Dict String String → String → Result Value
unfolding get normalize shown
document_in snap labels path = elim (get (normalize path) snap.docs) [
  | none ↦ err (backend_error "document not found" (some 404))
  | some doc ↦ ok (shown snap labels doc)
]

module _ {Tree : Type 0} (rt : Runtime) (int_of : String → Result ℕ) (pull_interval : ℕ) where
  unfoldable pub get_document :
      Visit Tree → Dict String String → String → String → Corpus Tree → Result Value × Corpus Tree
  unfolding snapshot_for document_in ◌>>=◌
  get_document v labels path project c =
      let (snap, after) = snapshot_for rt int_of pull_interval v project c in
      (snap >>= λ s. document_in s labels path, after)
