-- ===== src/Keystore/Cleared.antt =====
-- What is cleared is gone. Code: `clear` and `get` of mcp_governance_gateway/redmine_keystore.py.
use mcp_governance_gateway.Base.{
  String, ◌≡◌, refl, ◌∙◌, subst, inl, inr, true, false, Option, none, some, [], ◌∷◌, Bool-cases,
  Option-cases,
}
use mcp_governance_gateway.Base.Dict.{get, put, remove, get-put_self, get-remove}
use mcp_governance_gateway.Base.Eq.{◌==◌, string_eq}
use mcp_governance_gateway.Hotfile.{Signature, Access, refresh, publish}
use mcp_governance_gateway.Value.{
  Value, null, str, arr, obj, bool, int, float, Fields, Args, entries, fields, dict, get_value,
  entries-fields,
}
use mcp_governance_gateway.Keystore.{
  missing, Keys, Records, CredentialStore, is_legacy_flat, legacy_backend, is_named, record_in,
  get_record, find,
}
use mcp_governance_gateway.Keystore.Write.{
  cleared_nested, cleared_entry, cleared, clear_written, clear_key,
}

module _ (keys : Keys) (actor backend : String) where
  -- The records hold nothing of the actor for the backend.
  abbrev pub IsCleared : Records → Type 0
  IsCleared records = get_record records actor backend ≡ none

  remove-IsCleared : (records : Records) → IsCleared (remove actor records)
  unfolding get_record
  remove-IsCleared records =
      let gone : get actor (remove actor records) ≡ none =
        get-remove actor actor records ∙ rw ((string_eq.beq_iff actor actor).1 refl) in
      rw (get_record, gone)

  -- An entry that has no credential of the backend.
  put-IsCleared :
      (records : Records) (raw : Args)
      → record_in raw backend ≡ none
      → IsCleared (put actor (dict raw) records)
  unfolding get_record dict
  put-IsCleared records raw h =
      rw (get_record, get-put_self actor (obj (fields raw)) records, entries-fields raw) h

  held-IsCleared :
      (records : Records) (fs : Fields)
      → get actor records ≡ some (obj fs)
      → record_in (entries fs) backend ≡ none
      → IsCleared records
  unfolding get_record
  held-IsCleared records fs there h = rw (get_record, there) h

  absent_record :
      (raw : Args)
      → is_legacy_flat raw ≡ false
      → get backend raw ≡ none
      → record_in raw backend ≡ none
  unfolding record_in
  absent_record raw nested gone = rw (record_in, nested, gone)

  -- Taking an entry out leaves the rest nested.
  nested_rest :
      (raw : Args) → is_legacy_flat raw ≡ false → is_legacy_flat (remove backend raw) ≡ false
  unfolding is_legacy_flat get_value
  nested_rest raw nested = elim (Bool-cases (backend == "ct")) [
    | inl same ↦ rw (is_legacy_flat, get_value, get-remove backend "ct" raw, same)
    | inr other ↦ rw (is_legacy_flat, get_value, get-remove backend "ct" raw, other) nested
  ]

  rest_record :
      (raw : Args) → is_legacy_flat raw ≡ false → record_in (remove backend raw) backend ≡ none
  rest_record raw nested =
      absent_record (remove backend raw) (nested_rest raw nested)
        (get-remove backend backend raw ∙ rw ((string_eq.beq_iff backend backend).1 refl))

  -- What is there where nothing is written, and what is written.
  abbrev Clears : Records → Option Records → Type 0
  Clears records none = IsCleared records
  Clears records (some after) = IsCleared after

  nested-Clears :
      (records : Records) (fs : Fields)
      → get actor records ≡ some (obj fs)
      → is_legacy_flat (entries fs) ≡ false
      → Clears records (cleared_nested keys actor backend (entries fs) records)
  unfolding cleared_nested
  nested-Clears records fs there nested = elim (Option-cases (get backend (entries fs))) [
    | inl none_there ↦
        rw (none_there)
          (held-IsCleared records fs there (absent_record (entries fs) nested none_there))
    | inr (v, found) ↦ rw (found) (go (remove backend (entries fs)) refl)
  ]
    where
      go :
          (rest : Args)
          → remove backend (entries fs) ≡ rest
          → Clears records (elim rest [
            | [] ↦ some (remove actor records)
            | entry ∷ more ↦ some (put actor (dict (entry ∷ more)) records)
          ])
      go [] e = remove-IsCleared records
      go (entry ∷ more) e =
          put-IsCleared records (entry ∷ more)
            (subst (λ x. record_in x backend ≡ none) e (rest_record (entries fs) nested))

  entry-Clears :
      (records : Records) (raw : Value)
      → get actor records ≡ some raw
      → Clears records (cleared_entry keys actor backend raw records)
  unfolding cleared_entry get_record record_in
  entry-Clears records (obj fs) there = elim (Bool-cases (is_legacy_flat (entries fs))) [
    | inr nested ↦ rw (nested) (nested-Clears records fs there nested)
    | inl flat ↦ elim (Bool-cases (is_named (legacy_backend (entries fs)) backend)) [
      | inl named ↦ rw (flat, named) (remove-IsCleared records)
      | inr other ↦ rw (flat, other) (held-IsCleared records fs there (rw (record_in, flat, other)))
    ]
  ]
  entry-Clears records null there = remove-IsCleared records
  entry-Clears records (str s) there = remove-IsCleared records
  entry-Clears records (arr vs) there = remove-IsCleared records
  entry-Clears records (bool b) there = remove-IsCleared records
  entry-Clears records (int n) there = remove-IsCleared records
  entry-Clears records (float x) there = remove-IsCleared records

  cleared-Clears : (records : Records) → Clears records (cleared keys actor backend records)
  unfolding cleared get_record
  cleared-Clears records = elim (Option-cases (get actor records)) [
    | inl absent ↦ rw (cleared, absent) (rw (get_record, absent))
    | inr (raw, there) ↦ rw (cleared, there) (entry-Clears records raw there)
  ]

  find-missing :
      (records : Records) → IsCleared records → find keys records actor backend ≡ (missing, none)
  unfolding find
  find-missing records h = rw (find, h)

-- After clearing the credential of an actor for a backend, whether there was one to clear or not and
-- whatever form the actor's entry had, the store finds none.
pub find-clear_key :
    (keys : Keys) (a : Access Records) (signature : Signature) (actor backend : String)
    (s : CredentialStore)
    → find keys (clear_key keys a signature actor backend s).1.value actor backend ≡ (missing, none)
unfolding clear_key clear_written publish
find-clear_key keys a signature actor backend s =
    go (cleared keys actor backend (refresh true false a s).value)
      (cleared-Clears keys actor backend (refresh true false a s).value)
  where
    go :
        (o : Option Records)
        → Clears keys actor backend (refresh true false a s).value o
        → find keys (clear_written keys o signature (refresh true false a s)).1.value actor backend
          ≡ (missing, none)
    go none h = find-missing keys actor backend (refresh true false a s).value h
    go (some after) h = find-missing keys actor backend after h
