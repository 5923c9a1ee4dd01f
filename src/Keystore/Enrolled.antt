-- ===== src/Keystore/Enrolled.antt =====
-- What a write makes of the records.
-- Code: `get`, `set` and `clear` of mcp_governance_gateway/redmine_keystore.py.
use mcp_governance_gateway.Base.{
  String, ◌≡◌, ◌≢◌, refl, sym, ap, ◌∙◌, subst, inl, inr, false, Option, none, some, [], ◌∷◌, arith,
  Bool-cases, if◌then◌else◌,
}
use mcp_governance_gateway.Base.Dict.{get, put, get-put, get-put_self}
use mcp_governance_gateway.Base.Eq.{◌==◌, string_eq, pair_eq, nat_eq}
use mcp_governance_gateway.Errors.{Result, ok, err}
use mcp_governance_gateway.Value.{
  Value, str, arr, obj, Fields, Args, entries, dict, get_value, entries-fields,
}
use mcp_governance_gateway.Keystore.{
  Keys, Records, is_legacy_flat, legacy_backend, is_named, as_record, record_in, get_record,
}
use mcp_governance_gateway.Keystore.Write.{keyed, actor_map, with_record}

-- A map that a write starts from is no legacy record.
keyed-IsNested :
    (name : Value) (fs : Fields) (map : Args)
    → keyed name (obj fs) ≡ ok map
    → is_legacy_flat map ≡ false
unfolding keyed is_legacy_flat get_value get
keyed-IsNested (str name) fs map h =
    let same : (name, obj fs) ∷ [] ≡ map = cc in
    subst (λ m. is_legacy_flat m ≡ false) same (ground arith)
keyed-IsNested (arr vs) fs map h = absurd (let no : err _ ≡ ok map = h in cc)
keyed-IsNested (obj vs) fs map h = absurd (let no : err _ ≡ ok map = h in cc)
keyed-IsNested _ fs map h =
    let same : [] ≡ map = cc in subst (λ m. is_legacy_flat m ≡ false) same refl

pub actor_map-IsNested :
    (entry : Option Value) (map : Args) → actor_map entry ≡ ok map → is_legacy_flat map ≡ false
unfolding actor_map is_legacy_flat get_value get
actor_map-IsNested (some (obj fs)) map h = elim (Bool-cases (is_legacy_flat (entries fs))) [
  | inl e ↦ keyed-IsNested (legacy_backend (entries fs)) fs map (rw e at h)
  | inr e ↦
      let plain : ok (entries fs) ≡ ok map = rw e at h in
      let same : entries fs ≡ map = cc in subst (λ m. is_legacy_flat m ≡ false) same e
]
actor_map-IsNested _ map h =
    let same : [] ≡ map = cc in subst (λ m. is_legacy_flat m ≡ false) same refl

-- The map still is none with a record put in.
put-IsNested :
    (backend : String) (rec map : Args)
    → is_legacy_flat map ≡ false
    → is_legacy_flat (put backend (dict rec) map) ≡ false
unfolding is_legacy_flat get_value dict
put-IsNested backend rec map h = elim (Bool-cases (backend == "ct")) [
  | inl e ↦ rw (is_legacy_flat, get_value, get-put backend "ct" (dict rec) map, e)
  | inr e ↦ rw (is_legacy_flat, get_value, get-put backend "ct" (dict rec) map, e) h
]

-- The map tells of the other backends what the entry told.
keyed-others :
    (name : Value) (fs : Fields) (map : Args) (backend : String)
    → keyed name (obj fs) ≡ ok map
    → as_record (get backend map) ≡ (if is_named name backend then some (entries fs) else none)
unfolding keyed get
keyed-others (str name) fs map backend h =
    let same : (name, obj fs) ∷ [] ≡ map = cc in
    subst (λ m. as_record (get backend m) ≡ (if name == backend then some (entries fs) else none))
      same (ground arith)
keyed-others (arr vs) fs map backend h = absurd (let no : err _ ≡ ok map = h in cc)
keyed-others (obj vs) fs map backend h = absurd (let no : err _ ≡ ok map = h in cc)
keyed-others _ fs map backend h =
    let same : [] ≡ map = cc in subst (λ m. as_record (get backend m) ≡ none) same refl

-- The record of an actor's entry, which may be none.
abbrev entry_record : Option Value → String → Option Args
entry_record entry backend = elim (as_record entry) [
  | none ↦ none
  | some raw ↦ record_in raw backend
]

actor_map-others :
    (entry : Option Value) (map : Args) (backend : String)
    → actor_map entry ≡ ok map
    → as_record (get backend map) ≡ entry_record entry backend
unfolding actor_map record_in get
actor_map-others (some (obj fs)) map backend h = elim (Bool-cases (is_legacy_flat (entries fs))) [
  | inl e ↦ rw e (keyed-others (legacy_backend (entries fs)) fs map backend (rw e at h))
  | inr e ↦
      let plain : ok (entries fs) ≡ ok map = rw e at h in
      let same : entries fs ≡ map = cc in
      rw e (ap (λ (m : Args). as_record (get backend m)) (sym same))
]
actor_map-others _ map backend h =
    let same : [] ≡ map = cc in subst (λ m. as_record (get backend m) ≡ none) same refl

module _ (keys : Keys) (actor backend : String) (rec : Args) (records : Records) where
  -- The records with one put in.
  abbrev pub added : Args → Records
  added map = put actor (dict (put backend (dict rec) map)) records

  added-record_in :
      (map : Args) (other : String)
      → get_record (added map) actor other ≡ record_in (put backend (dict rec) map) other
  unfolding get_record dict
  added-record_in map other = rw (
    get_record,
    get-put_self actor (dict (put backend (dict rec) map)) records,
    entries-fields (put backend (dict rec) map),
  )

  added_nested :
      (map : Args) (other : String)
      → is_legacy_flat map ≡ false
      → get_record (added map) actor other ≡ as_record (get other (put backend (dict rec) map))
  unfolding record_in
  added_nested map other h = added-record_in map other ∙ rw (put-IsNested backend rec map h)

  pub added_own :
      (map : Args) → is_legacy_flat map ≡ false → get_record (added map) actor backend ≡ some rec
  unfolding dict
  added_own map h = added_nested map backend h ∙ rw (get-put_self) (ap some (entries-fields rec))

  pub added_other :
      (map : Args) (other : String)
      → actor_map (get actor records) ≡ ok map
      → backend ≢ other
      → get_record (added map) actor other ≡ get_record records actor other
  unfolding get_record
  added_other map other h distinct = elim (Bool-cases (backend == other)) [
    | inl e ↦ absurd (distinct ((string_eq.beq_iff backend other).0 e))
    | inr e ↦
        added_nested map other (actor_map-IsNested (get actor records) map h)
        ∙ rw (get-put, e) (actor_map-others (get actor records) map other h)
  ]

  pub added_actor :
      (map : Args) (who other : String)
      → actor ≢ who
      → get_record (added map) who other ≡ get_record records who other
  unfolding get_record
  added_actor map who other distinct = elim (Bool-cases (actor == who)) [
    | inl e ↦ absurd (distinct ((string_eq.beq_iff actor who).0 e))
    | inr e ↦ rw (get_record, get-put actor who _ records, e)
  ]

  -- A write that succeeds puts the record in.
  pub with_record-added :
      (after : Records)
      → with_record keys actor backend rec records ≡ ok after
      → (map : Args) × (actor_map (get actor records) ≡ ok map) × (after ≡ added map)
  unfolding with_record
  with_record-added after h = go (actor_map (get actor records)) refl
    where
      go :
          (r : Result Args)
          → actor_map (get actor records) ≡ r
          → (map : Args) × (actor_map (get actor records) ≡ ok map) × (after ≡ added map)
      go (ok map) e = let same : ok (added map) ≡ ok after = rw e at h in (map, e, cc)
      go (err x) e = absurd (let no : err x ≡ ok after = rw e at h in cc)
