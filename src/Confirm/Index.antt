-- ===== src/Confirm/Index.antt =====
-- The index of owners always agrees with the pending entries.
use mcp_governance_gateway.Base.{
  String, none, some, List, [], ◌∷◌, ◌++◌, ◌≡◌, ◌≢◌, refl, inl, inr, arith, if◌then◌else◌,
  Bool-cases, Option-cases,
}
use mcp_governance_gateway.Base.Eq.{◌==◌, string_eq}
use mcp_governance_gateway.Base.Dict.{Dict, get, put, remove, get-put, get-remove}
use mcp_governance_gateway.Confirm.{
  Entry, Store, without, owned_of, store_owned, drop_owned, drop, drop_all, add,
}

-- The pending nonces of an owner, oldest first.
unfoldable pub owned_by : String → Dict String Entry → List String
owned_by o [] = []
owned_by o ((n, entry) ∷ d) = let rest = owned_by o d in if entry.owner == o then n ∷ rest else rest

abbrev pub IsUnique : {V : Type 0} → Dict String V → Type 0
IsUnique [] = Unit
IsUnique ((n, v) ∷ d) = (get n d ≡ none) × IsUnique d

pub record IsIndexed (s : Store) : Type 0 where
  pub unique : IsUnique s.pending
  pub agrees : (o : String) → owned_of o s.owned ≡ owned_by o s.pending
  -- no owner is kept with no nonce
  pub kept : (o : String) → get o s.owned ≢ some []

remove_absent : {V : Type 0} (n : String) (d : Dict String V) → get n d ≡ none → remove n d ≡ d
unfolding get remove
remove_absent n [] h = refl
remove_absent n ((m, v) ∷ d) h = ground (arith, remove_absent n d)

get-remove_absent :
    {V : Type 0} (n m : String) (d : Dict String V) → get m d ≡ none → get m (remove n d) ≡ none
get-remove_absent n m d h = ground (arith, get-remove n m d)

IsUnique-remove : {V : Type 0} (n : String) (d : Dict String V) → IsUnique d → IsUnique (remove n d)
unfolding remove
IsUnique-remove n [] u = tt
IsUnique-remove n ((m, v) ∷ d) u = elim (Bool-cases (m == n)) [
  | inl e ↦ rw e (IsUnique-remove n d u.1)
  | inr e ↦ rw e (get-remove_absent n m d u.0, IsUnique-remove n d u.1)
]

owned_by-remove :
    (o n : String) (d : Dict String Entry) → owned_by o (remove n d) ≡ without n (owned_by o d)
unfolding owned_by remove without
owned_by-remove o n [] = refl
owned_by-remove o n ((m, entry) ∷ d) = ground (arith, owned_by-remove o n d)

owned_by-remove_other :
    (o n : String) (d : Dict String Entry) (entry : Entry)
    → IsUnique d
    → get n d ≡ some entry
    → entry.owner ≢ o
    → owned_by o (remove n d) ≡ owned_by o d
unfolding owned_by remove get
owned_by-remove_other o n [] entry u found other = refl
owned_by-remove_other o n ((m, f) ∷ d) entry u found other = ground (
  arith,
  string_eq.beq_iff m n,
  string_eq.beq_iff f.owner o,
  remove_absent n d,
  owned_by-remove_other o n d entry,
)

without_nil : (n : String) → without n [] ≡ []
unfolding without
without_nil n = refl

owned_of-store_owned :
    (o w : String) (nonces : List String) (d : Dict String (List String))
    → owned_of o (store_owned w nonces d) ≡ (if w == o then nonces else owned_of o d)
unfolding owned_of store_owned
owned_of-store_owned o w [] d = ground (arith, get-remove w o d)
owned_of-store_owned o w (n ∷ ns) d = ground (arith, get-put w o (n ∷ ns) d)

pub owned_of-drop_owned :
    (o n w : String) (d : Dict String (List String))
    → owned_of o (drop_owned n w d) ≡ (if w == o then without n (owned_of o d) else owned_of o d)
unfolding owned_of drop_owned
owned_of-drop_owned o n w d = elim (Option-cases (get w d)) [
  | inl e ↦ rw (drop_owned, e) (ground (arith, string_eq.beq_iff w o, without_nil n))
  | inr (nonces, e) ↦
      rw (drop_owned, e)
        (ground (arith, string_eq.beq_iff w o, owned_of-store_owned o w (without n nonces) d))
]

store_owned-kept :
    (w o : String) (nonces : List String) (d : Dict String (List String))
    → get o d ≢ some []
    → get o (store_owned w nonces d) ≢ some []
unfolding store_owned
store_owned-kept w o [] d h = ground (arith, get-remove w o d)
store_owned-kept w o (n ∷ ns) d h = ground (arith, get-put w o (n ∷ ns) d)

pub owned_of-put :
    (w o : String) (nonces : List String) (d : Dict String (List String))
    → owned_of o (put w nonces d) ≡ (if w == o then nonces else owned_of o d)
unfolding owned_of
owned_of-put w o nonces d = ground (arith, get-put w o nonces d)

drop_owned-kept :
    (n w o : String) (d : Dict String (List String))
    → get o d ≢ some []
    → get o (drop_owned n w d) ≢ some []
unfolding drop_owned
drop_owned-kept n w o d h = elim (Option-cases (get w d)) [
  | inl e ↦ rw (drop_owned, e) h
  | inr (nonces, e) ↦ rw (drop_owned, e) (store_owned-kept w o (without n nonces) d h)
]

pub drop_absent : (nonce : String) (s : Store) → get nonce s.pending ≡ none → drop nonce s ≡ s
unfolding drop
drop_absent nonce s e = rw (drop, e)

pub drop_present :
    (nonce : String) (s : Store) (entry : Entry)
    → get nonce s.pending ≡ some entry
    → drop nonce s
      ≡ record { pending = remove nonce s.pending; owned = drop_owned nonce entry.owner s.owned }
unfolding drop
drop_present nonce s entry e = rw (drop, e)

pub drop-IsIndexed : (nonce : String) (s : Store) → IsIndexed s → IsIndexed (drop nonce s)
drop-IsIndexed nonce s i = elim (Option-cases (get nonce s.pending)) [
  | inl e ↦ rw (drop_absent nonce s e) i
  | inr (entry, e) ↦ rw (drop_present nonce s entry e) (record {
    unique = IsUnique-remove nonce s.pending i.unique;
    agrees = λ o. rw owned_of-drop_owned (
        ground (
          arith,
          i.agrees o,
          string_eq.beq_iff entry.owner o,
          owned_by-remove o nonce s.pending,
          owned_by-remove_other o nonce s.pending entry i.unique e,
        ));
    kept = λ o. drop_owned-kept nonce entry.owner o s.owned (i.kept o);
  })
]

pub drop_all-IsIndexed :
    (nonces : List String) (s : Store) → IsIndexed s → IsIndexed (drop_all nonces s)
unfolding drop_all
drop_all-IsIndexed [] s i = i
drop_all-IsIndexed (nonce ∷ nonces) s i =
    drop_all-IsIndexed nonces (drop nonce s) (drop-IsIndexed nonce s i)

IsUnique-put_absent :
    {V : Type 0} (n : String) (v : V) (d : Dict String V)
    → get n d ≡ none
    → IsUnique d
    → IsUnique (put n v d)
unfolding put get
IsUnique-put_absent n v [] h u = (refl, tt)
IsUnique-put_absent n v ((m, w) ∷ d) h u = elim (Bool-cases (m == n)) [
  | inl e ↦ let found : some w ≡ none = rw e at h in absurd (cc)
  | inr e ↦ rw e (
    ground (arith, get-put n m v d, string_eq.beq_iff n m, string_eq.beq_iff m n),
    IsUnique-put_absent n v d (rw e at h) u.1,
  )
]

owned_by-put_absent :
    (o n : String) (entry : Entry) (d : Dict String Entry)
    → get n d ≡ none
    → owned_by o (put n entry d)
      ≡ (if entry.owner == o then owned_by o d ++ n ∷ [] else owned_by o d)
unfolding owned_by put get
owned_by-put_absent o n entry [] h = ground arith
owned_by-put_absent o n entry ((m, f) ∷ d) h =
    ground (arith, owned_by-put_absent o n entry d, string_eq.beq_iff m n)

snoc-ne-nil : (ns : List String) (n : String) → some (ns ++ n ∷ []) ≢ some []
snoc-ne-nil [] n = cc
snoc-ne-nil (m ∷ ns) n = cc

-- A nonce that is not pending yet goes to the end of its owner's list.
pub add-IsIndexed :
    (nonce : String) (entry : Entry) (s : Store)
    → get nonce s.pending ≡ none
    → IsIndexed s
    → IsIndexed (add nonce entry s)
unfolding add
add-IsIndexed nonce entry s fresh i = record {
  unique = IsUnique-put_absent nonce entry s.pending fresh i.unique;
  agrees = λ o. ground (
    arith,
    owned_of-put entry.owner o (owned_of entry.owner s.owned ++ nonce ∷ []) s.owned,
    owned_by-put_absent o nonce entry s.pending,
    string_eq.beq_iff entry.owner o,
    i.agrees o,
  );
  kept = λ o. ground (
    arith,
    get-put entry.owner o (owned_of entry.owner s.owned ++ nonce ∷ []) s.owned,
    snoc-ne-nil (owned_of entry.owner s.owned) nonce,
    i.kept o,
  );
}
