-- ===== src/Confirm/Bounds.antt =====
-- How many confirmations are pending, in all and for one owner.
use mcp_governance_gateway.Base.{
  ℕ, ◌+◌, ◌≤◌, ◌<◌, String, Bool, true, false, some, List, [], ◌∷◌, ◌≡◌, refl, sym, ap, ◌∙◌, ◌⊎◌,
  inl, inr, arith, length, leb, ltb, if◌then◌else◌, Bool-cases, Option-cases, subst, is_some,
}
use mcp_governance_gateway.Base.Eq.{◌==◌, string_eq, ==_refl}
use mcp_governance_gateway.Base.Dict.{Dict, get, put, remove, length-remove-le}
use mcp_governance_gateway.Errors.{ok}
use mcp_governance_gateway.Confirm.{
  Config, Entry, Store, without, owned_of, drop, drop_first, evict_own, evict_earliest, evict_total,
  earliest_from,
}
use mcp_governance_gateway.Confirm.Index.{
  IsIndexed, IsUnique, owned_by, drop-IsIndexed, drop_absent, drop_present, owned_of-drop_owned,
}
use mcp_governance_gateway.Confirm.Invariant.{length-drop-le}

length-remove-lt :
    {V : Type 0} (n : String) (d : Dict String V)
    → is_some (get n d) ≡ true
    → length (remove n d) < length d
unfolding remove get
length-remove-lt n [] h = absurd (cc)
length-remove-lt n ((m, v) ∷ d) h = elim (Bool-cases (m == n)) [
  | inl e ↦ rw e (omega (arith, length-remove-le n d))
  | inr e ↦ rw e (omega (arith, length-remove-lt n d (rw e at h)))
]

pub length-put-le :
    {V : Type 0} (n : String) (v : V) (d : Dict String V) → length (put n v d) ≤ length d + 1
unfolding put
length-put-le n v [] = omega arith
length-put-le n v ((m, w) ∷ d) = ground (arith, length-put-le n v d)

length-without-le : (n : String) (ns : List String) → length (without n ns) ≤ length ns
unfolding without
length-without-le n [] = omega arith
length-without-le n (m ∷ ns) = ground (arith, length-without-le n ns)

pub length-drop-lt :
    (nonce : String) (s : Store)
    → is_some (get nonce s.pending) ≡ true
    → length (drop nonce s).pending < length s.pending
length-drop-lt nonce s h = elim (Option-cases (get nonce s.pending)) [
  | inl e ↦ absurd (let no : false ≡ true = rw e at h in cc)
  | inr (entry, e) ↦ rw (drop_present nonce s entry e) (length-remove-lt nonce s.pending h)
]

found_cons :
    (n r : String) (entry : Entry) (d : Dict String Entry)
    → (r ≡ n) ⊎ (is_some (get r d) ≡ true)
    → is_some (get r ((n, entry) ∷ d)) ≡ true
unfolding get
found_cons n r entry d (inl e) = ground (arith, string_eq.beq_iff n r)
found_cons n r entry d (inr f) = ground (arith, string_eq.beq_iff n r)

earliest_from_step :
    (best n : String) (expiry : ℕ) (entry : Entry) (d : Dict String Entry)
    → earliest_from best expiry ((n, entry) ∷ d) ≡ (
        if ltb entry.expiry expiry
        then earliest_from n entry.expiry d
        else earliest_from best expiry d)
unfolding earliest_from
earliest_from_step best n expiry entry d = ground arith

-- `min` answers the first candidate or a key of the rest.
abbrev IsFrom : String → Dict String Entry → String → Type 0
IsFrom best d r = (r ≡ best) ⊎ (is_some (get r d) ≡ true)

earliest_from-found :
    (best : String) (expiry : ℕ) (d : Dict String Entry)
    → IsFrom best d (earliest_from best expiry d)
unfolding earliest_from
earliest_from-found best expiry [] = inl refl
earliest_from-found best expiry ((n, entry) ∷ d) =
    subst (IsFrom best ((n, entry) ∷ d)) (sym (earliest_from_step best n expiry entry d)) (
      pick (ltb entry.expiry expiry) (earliest_from-found n entry.expiry d)
        (earliest_from-found best expiry d))
  where
    pick :
        (earlier : Bool) {a b : String}
        → IsFrom n d a
        → IsFrom best d b
        → IsFrom best ((n, entry) ∷ d) (if earlier then a else b)
    pick true {a} f g = inr (found_cons n a entry d f)
    pick false f (inl same) = inl same
    pick false {a} {b} f (inr later) = inr (found_cons n b entry d (inr later))

pub owned_by-found :
    (o n : String) (rest : List String) (d : Dict String Entry)
    → owned_by o d ≡ n ∷ rest
    → IsUnique d
    → (entry : Entry) × (get n d ≡ some entry) × (entry.owner ≡ o)
unfolding owned_by get
owned_by-found o n rest [] h u = absurd (cc)
owned_by-found o n rest ((m, entry) ∷ d) h u = elim (Bool-cases (entry.owner == o)) [
  | inl e ↦ (
    entry,
    ground (arith, string_eq.beq_iff m n, string_eq.beq_iff entry.owner o),
    (string_eq.beq_iff entry.owner o).0 e,
  )
  | inr e ↦
      let (f, found, owner) = owned_by-found o n rest d (rw e at h) u.1 in
      (f, ground (arith, string_eq.beq_iff m n), owner)
]

-- Dropping never makes an owner's list longer.
pub length-owned-drop-le :
    (o nonce : String) (s : Store)
    → length (owned_of o (drop nonce s).owned) ≤ length (owned_of o s.owned)
length-owned-drop-le o nonce s = elim (Option-cases (get nonce s.pending)) [
  | inl e ↦ rw (drop_absent nonce s e) (omega arith)
  | inr (entry, e) ↦
      rw (drop_present nonce s entry e, owned_of-drop_owned)
        (ground (arith, length-without-le nonce (owned_of o s.owned)))
]

pub evict_total-lt :
    (config : Config) (s roomy : Store)
    → length s.pending ≤ config.max_entries
    → evict_total config s ≡ ok roomy
    → length roomy.pending < config.max_entries
unfolding evict_total evict_earliest
evict_total-lt config s roomy le e = elim (Bool-cases (leb config.max_entries (length s.pending))) [
  | inl full ↦ earliest s.pending refl (rw full at e)
  | inr room ↦
      let same : ok s ≡ ok roomy = rw room at e in
      let kept : s ≡ roomy = cc in
      subst (λ t. length t.pending < config.max_entries) kept (ground arith)
]
  where
    earliest :
        (d : Dict String Entry)
        → s.pending ≡ d
        → evict_earliest d s ≡ ok roomy
        → length roomy.pending < config.max_entries
    earliest [] same none_left = absurd (cc)
    earliest ((n, entry) ∷ d) same done =
        let pick = earliest_from n entry.expiry d in
        let found : is_some (get pick s.pending) ≡ true =
          rw same (found_cons n pick entry d (earliest_from-found n entry.expiry d)) in
        let dropped : drop pick s ≡ roomy = cc in
        subst (λ t. length t.pending < config.max_entries) dropped
          (omega (arith, length-drop-lt pick s found))

pub record IsBounded (config : Config) (s : Store) : Type 0 where
  pub total : length s.pending ≤ config.max_entries
  pub each : (o : String) → length (owned_of o s.owned) ≤ config.max_per_principal

-- The invariant of the store.
pub record IsSound (config : Config) (s : Store) : Type 0 where
  pub indexed : IsIndexed s
  pub bounded : IsBounded config s

pub drop-IsSound :
    (config : Config) (nonce : String) (s : Store)
    → IsSound config s
    → IsSound config (drop nonce s)
drop-IsSound config nonce s h = record {
  indexed = drop-IsIndexed nonce s h.indexed;
  bounded = record {
    total = omega (arith, length-drop-le nonce s, h.bounded.total);
    each = λ o. omega (arith, length-owned-drop-le o nonce s, h.bounded.each o);
  };
}

-- A principal at its cap loses its own oldest nonce, and is below the cap then.
pub evict_own-lt :
    (config : Config) (owner : String) (s : Store)
    → 1 ≤ config.max_per_principal
    → IsSound config s
    → length (owned_of owner (evict_own config owner s).owned) < config.max_per_principal
unfolding evict_own drop_first
evict_own-lt config owner s cap h =
    elim (Bool-cases (leb config.max_per_principal (length (owned_of owner s.owned)))) [
      | inl full ↦ rw full (first (owned_of owner s.owned) refl)
      | inr room ↦ rw room (ground arith)
    ]
  where
    first :
        (nonces : List String)
        → owned_of owner s.owned ≡ nonces
        → length (owned_of owner (drop_first nonces s).owned) < config.max_per_principal
    first [] e = rw e (omega arith)
    first (oldest ∷ rest) e =
        let (entry, found, owns) =
          owned_by-found owner oldest rest s.pending (sym (h.indexed.agrees owner) ∙ e)
            h.indexed.unique in
        rw (drop_present oldest s entry found, owned_of-drop_owned, owns, ==_refl owner, e)
          (rw (==_refl oldest)
            (omega (arith, length-without-le oldest rest, ap length e, h.bounded.each owner)))
