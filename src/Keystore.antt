-- ===== src/Keystore.antt =====
-- Credentials of each user for each backend, sealed on disk.
-- Code: mcp_governance_gateway/redmine_keystore.py. AES-GCM with base64 is a parameter, and so are
-- the nonce that is drawn, the time stamp, and what an access finds on disk.
pub mod Write
pub mod Enrolled
pub mod RoundTrip
pub mod Cleared
mod Tests
use mcp_governance_gateway.Base.{
  ◌≡◌, String, ◌<>◌, Bool, true, false, not, ◌||◌, Option, none, some, [], ◌∷◌, is_some,
  if◌then◌else◌,
}
use mcp_governance_gateway.Base.Dict.{Dict, get}
use mcp_governance_gateway.Base.Eq.{◌==◌, string_eq}
use mcp_governance_gateway.Errors.{ok}
use mcp_governance_gateway.Hotfile.{Reloading, Access, refresh}
use mcp_governance_gateway.Value.{Value, bool, str, obj, Args, entries, get_value, or_else}

pub data KeyState : Type 0 where
  missing key_ok undecryptable degraded : KeyState

-- `seal` is the base64 of the nonce and of what AES-GCM encrypts under the associated data; `unseal`
-- is none where decoding or decrypting raises.
pub record Cipher : Type 0 where
  pub seal : (master nonce aad plaintext : String) → String
  pub unseal : (master aad ct : String) → Option String

-- What is sealed is what is unsealed under the same key and associated data.
abbrev pub IsInverse : Cipher → Type 0
IsInverse cipher =
    (master nonce aad plaintext : String)
    → cipher.unseal master aad (cipher.seal master nonce aad plaintext) ≡ some plaintext

-- `available` says whether the cryptography library could be imported.
pub record Keys : Type 0 where
  pub cipher : Cipher
  pub available : Bool
  pub active_key_id : Option String
  pub master_keys : Dict String String

-- The records of each actor, as the file's JSON has them.
abbrev pub Records : Type 0
Records = Args

abbrev pub CredentialStore : Type 0
CredentialStore = Reloading Records

-- The parsed file: the records under "keys", none where there is no such dict.
unfoldable pub records_of : Value → Records
unfolding get_value entries
records_of (obj fs) = elim (get_value (entries fs) "keys") [ obj recs ↦ entries recs | _ ↦ [] ]
records_of _ = []

-- `isinstance(raw.get("ct"), str)`
abbrev pub is_text : Value → Bool
is_text (str s) = true
is_text _ = false

unfoldable pub is_legacy_flat : Args → Bool
unfolding get_value
is_legacy_flat raw = is_text (get_value raw "ct")

-- raw.get("backend") or "redmine"
unfoldable pub legacy_backend : Args → Value
unfolding get_value or_else
legacy_backend raw = or_else (get_value raw "backend") (str "redmine")

abbrev pub is_named : Value → String → Bool
is_named (str s) backend = s == backend
is_named _ backend = false

abbrev pub as_record : Option Value → Option Args
as_record (some (obj fs)) = some (entries fs)
as_record _ = none

-- `_get_record` of an actor's entry.
unfoldable pub record_in : Args → String → Option Args
unfolding is_legacy_flat legacy_backend get
record_in raw backend =
    if is_legacy_flat raw
    then (if is_named (legacy_backend raw) backend then some raw else none)
    else as_record (get backend raw)

unfoldable pub get_record : Records → String → String → Option Args
unfolding get record_in
get_record records actor backend = elim (as_record (get actor records)) [
  | none ↦ none
  | some raw ↦ record_in raw backend
]

module _ (keys : Keys) where
  abbrev pub master_of : Option String → Option String
  master_of none = none
  master_of (some key_id) = get key_id keys.master_keys

  unfoldable pub is_degraded : Bool
  unfolding get
  is_degraded = not keys.available || not (is_some (master_of keys.active_key_id))

  -- rec.get("key_id"), if it is a text.
  abbrev pub text_in : Value → Option String
  text_in (str s) = some s
  text_in _ = none

  unfoldable pub aad_of : Args → String → String → String
  unfolding get
  aad_of rec actor backend =
      if is_some (get "backend" rec) then actor <> ("|" <> backend) else actor

  abbrev pub opened : Option String → KeyState × Option String
  opened none = (undecryptable, none)
  opened (some plaintext) = (key_ok, some plaintext)

  -- The decryption of a record with its master key.
  unfoldable pub unsealed : String → Args → String → String → KeyState × Option String
  unfolding get_value aad_of
  unsealed master rec actor backend = elim (text_in (get_value rec "ct")) [
    | none ↦ (undecryptable, none)
    | some ct ↦ opened (keys.cipher.unseal master (aad_of rec actor backend) ct)
  ]

  -- `get` of the records as they are.
  unfoldable pub find : Records → String → String → KeyState × Option String
  unfolding get_record is_degraded get_value unsealed
  find records actor backend = elim (get_record records actor backend) [
    | none ↦ (missing, none)
    | some rec ↦
        if is_degraded
        then (degraded, none)
        else elim (master_of (text_in (get_value rec "key_id"))) [
          | none ↦ (undecryptable, none)
          | some master ↦ unsealed master rec actor backend
        ]
  ]

  -- `get`: the file is looked at first.
  unfoldable pub get_key :
      Access Records
      → String
      → String
      → CredentialStore
      → (KeyState × Option String) × CredentialStore
  unfolding refresh find
  get_key a actor backend s = let s' = refresh true false a s in (find s'.value actor backend, s')

  abbrev pub state_value : KeyState → String
  state_value missing = "missing"
  state_value key_ok = "ok"
  state_value undecryptable = "undecryptable"
  state_value degraded = "degraded"

  abbrev pub is_ok_state : KeyState → Bool
  is_ok_state key_ok = true
  is_ok_state _ = false

  abbrev pub record_or_empty : Option Args → Args
  record_or_empty none = []
  record_or_empty (some rec) = rec

  unfoldable pub status :
      Access Records → String → String → CredentialStore → Args × CredentialStore
  unfolding get_key get_record get_value or_else is_degraded
  status a actor backend s =
      let ((state, plaintext), s') = get_key a actor backend s in
      let rec = record_or_empty (get_record s'.value actor backend) in
      let login = or_else (get_value rec "login") (get_value rec "redmine_login") in
      (
        ("hasKey", bool (is_ok_state state))
            ∷ ("state", str (state_value state))
            ∷ ("login", login)
            ∷ ("redmineLogin", login)
            ∷ ("degraded", bool is_degraded)
            ∷ [],
        s',
      )
