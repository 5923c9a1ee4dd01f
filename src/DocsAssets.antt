-- ===== src/DocsAssets.antt =====
-- Uploads of document bodies that wait to be proposed. Code: mcp_governance_gateway/docs_assets.py.
-- The lock makes each method one step; the clock's readings and the tokens that `secrets` draws are
-- arguments of the step. `claim` is two steps, with the work of its `with` block between them.
pub mod Claims
mod Tests
use mcp_governance_gateway.Base.{
  ℕ, ◌+◌, ◌*◌, String, ◌<>◌, Bool, true, false, not, ◌&&◌, Option, none, some, [], ◌∷◌, ltb, leb,
  eqb, is_some, if◌then◌else◌,
}
use mcp_governance_gateway.Base.Int.{pos}
use mcp_governance_gateway.Base.Text.{is_empty}
use mcp_governance_gateway.Base.Dict.{Dict, get, put, remove}
use mcp_governance_gateway.Base.Eq.{◌==◌, string_eq}
use mcp_governance_gateway.Errors.{backend_error, Result, ok, err}
use mcp_governance_gateway.Limits.{second}
use mcp_governance_gateway.Value.{Value, bool, int, str, arr, nil, cons, dict}

-- The bytes of a body: how many, and their text if they are UTF-8.
pub record Body : Type 0 where
  pub size : ℕ
  pub text : Option String

-- `body` is the field `data`.
pub record Stage : Type 0 where
  pub actor : String
  pub project : String
  pub token_id : String
  pub expiry : ℕ
  pub body : Option Body
  pub busy : Bool

-- Who asks: the actor, the project and the token's id.
pub record Owner : Type 0 where
  pub actor : String
  pub project : String
  pub token_id : String

pub record AssetStage : Type 0 where
  pub uploads : Dict String String
  pub staged : Dict String Stage

abbrev pub max_asset_bytes : ℕ
max_asset_bytes = 2 * 1_024 * 1_024

abbrev pub url_ttl_sec : ℕ
url_ttl_sec = 60

abbrev pub stage_ttl_sec : ℕ
stage_ttl_sec = 3_600

abbrev pub max_staged_per_user : ℕ
max_staged_per_user = 16

abbrev pub max_staged_bytes_per_user : ℕ
max_staged_bytes_per_user = 32 * 1_024 * 1_024

-- The stages that `_gc_locked` keeps.
unfoldable pub live_stages : ℕ → Dict String Stage → Dict String Stage
live_stages now [] = []
live_stages now ((id, meta) ∷ d) =
    let rest = live_stages now d in
    if leb meta.expiry now && not meta.busy then rest else (id, meta) ∷ rest

unfoldable pub live_uploads : Dict String Stage → Dict String String → Dict String String
unfolding get
live_uploads staged [] = []
live_uploads staged ((token, id) ∷ d) =
    let rest = live_uploads staged d in if is_some (get id staged) then (token, id) ∷ rest else rest

unfoldable pub gc : ℕ → AssetStage → AssetStage
unfolding live_stages live_uploads
gc now s =
    let staged = live_stages now s.staged in
    record { uploads = live_uploads staged s.uploads; staged = staged }

abbrev pub is_owner : Owner → Stage → Bool
is_owner o meta =
    (meta.actor == o.actor) && (meta.project == o.project) && (meta.token_id == o.token_id)

unfoldable pub owned_stage : String → Owner → AssetStage → Result Stage
unfolding get
owned_stage id o s =
    let refusal =
      err (backend_error "unknown stagedId (expired, consumed, or not yours)" (some 404)) in
    elim (get id s.staged) [
      | none ↦ refusal
      | some meta ↦ if is_owner o meta then ok meta else refusal
    ]

-- len([m for m in staged.values() if m.actor == actor])
unfoldable pub count_of : String → Dict String Stage → ℕ
count_of actor [] = 0
count_of actor ((id, meta) ∷ d) =
    let rest = count_of actor d in if meta.actor == actor then 1 + rest else rest

abbrev pub size_of : Option Body → ℕ
size_of none = 0
size_of (some body) = body.size

unfoldable pub bytes_of : String → Dict String Stage → ℕ
bytes_of actor [] = 0
bytes_of actor ((id, meta) ∷ d) =
    let rest = bytes_of actor d in if meta.actor == actor then size_of meta.body + rest else rest

unfoldable pub minted : String → String → String → Value
unfolding dict
minted base_url id token = dict (
    ("url", str (base_url <> "/docs/asset-stage/" <> token))
    ∷ ("stagedId", str id)
    ∷ ("expiresInSec", int (pos url_ttl_sec))
    ∷ ("singleUse", bool true)
    ∷ ("maxBytes", int (pos max_asset_bytes))
    ∷ ("kind", str "content")
    ∷ ("allowedTypes", arr (cons (str "text/markdown; charset=utf-8") nil))
    ∷ [])

-- `drawn` is the hexadecimal text behind "doc_", `token` the upload token; `base_url` has lost its
-- slashes at the end.
unfoldable pub mint_upload_url :
    String → Owner → String → ℕ → String → String → AssetStage → Result Value × AssetStage
unfolding gc count_of minted put
mint_upload_url base_url o kind now drawn token s =
    let s' = gc now s in
    let id = "doc_" <> drawn in
    if not (kind == "content")
    then (err (backend_error "kind must be content" (some 400)), s)
    else if is_empty base_url
    then (err (backend_error "staged content needs DOCS_ASSET_BASE_URL" (some 404)), s)
    else if leb max_staged_per_user (count_of o.actor s'.staged)
    then (err (backend_error "staging quota exceeded" (some 429)), s')
    else (
      ok (minted base_url id token),
      record {
        uploads = put token id s'.uploads;
        staged =
            put id
              (record {
                actor = o.actor;
                project = o.project;
                token_id = o.token_id;
                expiry = now + url_ttl_sec * second;
                body = none;
                busy = false;
              })
              s'.staged;
      },
    )

-- What the owner's upload comes to, with its URL and its stage taken away.
unfoldable pub accepted : String → Stage → Body → Owner → ℕ → AssetStage → Result Value × AssetStage
unfolding bytes_of dict put
accepted id meta body o now s =
    if eqb body.size 0
    then (err (backend_error "empty upload body" (some 400)), s)
    else if ltb max_asset_bytes body.size
    then (err (backend_error "staged content exceeds size limit" (some 413)), s)
    else if not (is_some body.text)
    then (err (backend_error "staged content must be UTF-8 text" (some 415)), s)
    else if ltb max_staged_bytes_per_user (bytes_of o.actor s.staged + body.size)
    then (err (backend_error "staging quota exceeded" (some 429)), s)
    else (
      ok (
          dict (
            ("stagedId", str id)
            ∷ ("bytes", int (pos body.size))
            ∷ ("type", str "text/markdown; charset=utf-8")
            ∷ [])),
      record s {
        staged =
            put id (record meta { body = some body; expiry = now + stage_ttl_sec * second })
              s.staged;
      },
    )

-- self._uploads.get(token, "")
unfoldable pub id_of : String → Dict String String → String
unfolding get
id_of token d = elim (get token d) [ none ↦ "" | some id ↦ id ]

unfoldable pub accept_upload :
    String → Body → Owner → ℕ → ℕ → AssetStage → Result Value × AssetStage
unfolding gc owned_stage accepted id_of remove
accept_upload token body o now later s =
    let s' = gc now s in
    let id = id_of token s'.uploads in
    elim (owned_stage id o s') [
      | err e ↦ (err e, s')
      | ok meta ↦
          accepted id meta body o later
            (record { uploads = remove token s'.uploads; staged = remove id s'.staged })
    ]

-- The text of a stage that was uploaded.
unfoldable pub text_of : Stage → Option String
text_of meta = elim meta.body [ none ↦ none | some body ↦ body.text ]

unfoldable pub peek : String → Owner → ℕ → AssetStage → Result String × AssetStage
unfolding gc owned_stage text_of
peek id o now s =
    let s' = gc now s in
    elim (owned_stage id o s') [
      | err e ↦ (err e, s')
      | ok meta ↦ elim (text_of meta) [
        | none ↦ (err (backend_error "staged content has not been uploaded" (some 409)), s')
        | some text ↦ (ok text, s')
      ]
    ]

-- `claim` up to its `yield`.
unfoldable pub claim_meta : String → Stage → AssetStage → Result String × AssetStage
unfolding text_of put
claim_meta id meta s =
    let refusal : Result String × AssetStage =
      (err (backend_error "staged content unavailable or already in use" (some 409)), s) in
    if meta.busy then refusal else elim (text_of meta) [
      | none ↦ refusal
      | some text ↦ (ok text, record s { staged = put id (record meta { busy = true }) s.staged })
    ]

unfoldable pub claim : String → Owner → ℕ → AssetStage → Result String × AssetStage
unfolding gc owned_stage claim_meta
claim id o now s =
    let s' = gc now s in
    elim (owned_stage id o s') [ err e ↦ (err e, s') | ok meta ↦ claim_meta id meta s' ]

-- The end of a claim whose block raised: `meta.busy = False`.
unfoldable pub release : String → AssetStage → AssetStage
unfolding get put
release id s = elim (get id s.staged) [
  | none ↦ s
  | some meta ↦ record s { staged = put id (record meta { busy = false }) s.staged }
]

-- The end of a claim whose block succeeded.
unfoldable pub consume : String → AssetStage → AssetStage
unfolding remove
consume id s = record s { staged = remove id s.staged }
