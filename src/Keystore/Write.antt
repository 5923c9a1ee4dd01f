-- ===== src/Keystore/Write.antt =====
-- The write path of the credential store.
-- Code: `set` and `clear` of mcp_governance_gateway/redmine_keystore.py.
use mcp_governance_gateway.Base.{
  String, ◌<>◌, Bool, true, false, not, Option, none, some, [], ◌∷◌, is_some, if◌then◌else◌,
}
use mcp_governance_gateway.Base.Dict.{get, put, remove}
use mcp_governance_gateway.Base.Eq.{string_eq}
use mcp_governance_gateway.Errors.{key_store_error, type_error, Result, ok, err, ◌>>=◌}
use mcp_governance_gateway.Hotfile.{Signature, Access, refresh, publish}
use mcp_governance_gateway.Value.{Value, null, str, arr, obj, Args, entries, dict}
use mcp_governance_gateway.Keystore.{
  Keys, Records, CredentialStore, is_legacy_flat, legacy_backend, is_named,
}

-- What the drawing of the nonce and the clock give to a write, and the file's signature behind it.
pub record Drawn : Type 0 where
  pub nonce : String
  pub updated_at : String
  pub signature : Signature

abbrev pub text_or_none : Option String → Value
text_or_none none = null
text_or_none (some s) = str s

-- `{legacy_backend: raw}`. A key that is no text is found by no lookup; a list or a dict is no key.
unfoldable pub keyed : Value → Value → Result Args
keyed (str name) raw = ok ((name, raw) ∷ [])
keyed (arr vs) raw = err type_error
keyed (obj fs) raw = err type_error
keyed _ raw = ok []

-- The actor's map that a write starts from.
unfoldable pub actor_map : Option Value → Result Args
unfolding is_legacy_flat legacy_backend keyed entries
actor_map (some (obj fs)) =
    if is_legacy_flat (entries fs)
    then keyed (legacy_backend (entries fs)) (obj fs)
    else ok (entries fs)
actor_map _ = ok []

module _ (keys : Keys) where
  unfoldable pub new_record :
      String → String → String → String → Option String → String → Drawn → Args
  new_record master key_id actor plaintext login backend drawn =
      ("ct", str (keys.cipher.seal master drawn.nonce (actor <> ("|" <> backend)) plaintext))
      ∷ ("key_id", str key_id)
      ∷ ("backend", str backend)
      ∷ ("login", text_or_none login)
      ∷ ("redmine_login", text_or_none login)
      ∷ ("updated_at", str drawn.updated_at)
      ∷ []

  -- The records with a new one.
  unfoldable pub with_record : String → String → Args → Records → Result Records
  unfolding get actor_map put dict
  with_record actor backend rec records = actor_map (get actor records) >>= λ map.
      ok (put actor (dict (put backend (dict rec) map)) records)

  -- `_atomic_write` where there is something to write.
  unfoldable pub written :
      Result Records → Signature → CredentialStore → Result (Unit {0}) × CredentialStore
  unfolding publish
  written (err e) signature s = (err e, s)
  written (ok records) signature s = (ok tt, publish records signature s)

  -- The active key's id with its bytes, if the store is not degraded.
  unfoldable pub active : Option (String × String)
  unfolding get
  active = if not keys.available then none else elim keys.active_key_id [
    | none ↦ none
    | some key_id ↦ elim (get key_id keys.master_keys) [
      | none ↦ none
      | some master ↦ some (key_id, master)
    ]
  ]

  unfoldable pub set_key :
      Access Records
      → Drawn
      → String
      → String
      → Option String
      → String
      → CredentialStore
      → Result (Unit {0}) × CredentialStore
  unfolding active refresh new_record with_record written
  set_key a drawn actor plaintext login backend s = elim active [
    | none ↦ (err (key_store_error "keystore master key unavailable"), s)
    | some (key_id, master) ↦
        let s' = refresh true false a s in
        written
          (with_record actor backend (new_record master key_id actor plaintext login backend drawn)
            s'.value)
          drawn.signature s'
  ]

  -- What `clear` makes of an actor's entry: the records that it writes, none where there is nothing
  -- to clear.
  unfoldable pub cleared_nested : String → String → Args → Records → Option Records
  unfolding get remove put dict
  cleared_nested actor backend raw records =
      if not (is_some (get backend raw)) then none else elim (remove backend raw) [
        | [] ↦ some (remove actor records)
        | entry ∷ rest ↦ some (put actor (dict (entry ∷ rest)) records)
      ]

  unfoldable pub cleared_entry : String → String → Value → Records → Option Records
  unfolding is_legacy_flat legacy_backend entries cleared_nested remove
  cleared_entry actor backend (obj fs) records =
      if is_legacy_flat (entries fs)
      then (if is_named (legacy_backend (entries fs)) backend
          then some (remove actor records)
          else none)
      else cleared_nested actor backend (entries fs) records
  cleared_entry actor backend _ records = some (remove actor records)

  unfoldable pub cleared : String → String → Records → Option Records
  unfolding get cleared_entry
  cleared actor backend records = elim (get actor records) [
    | none ↦ none
    | some raw ↦ cleared_entry actor backend raw records
  ]

  -- `_atomic_write` of what `clear` leaves, where it changes anything.
  unfoldable pub clear_written :
      Option Records → Signature → CredentialStore → Bool × CredentialStore
  unfolding publish
  clear_written none signature s = (false, s)
  clear_written (some records) signature s = (true, publish records signature s)

  unfoldable pub clear_key :
      Access Records → Signature → String → String → CredentialStore → Bool × CredentialStore
  unfolding refresh cleared clear_written
  clear_key a signature actor backend s =
      let s' = refresh true false a s in clear_written (cleared actor backend s'.value) signature s'
