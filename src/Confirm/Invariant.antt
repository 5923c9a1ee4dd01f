-- ===== src/Confirm/Invariant.antt =====
-- What every sequence of `issue` and `verify` keeps.
use mcp_governance_gateway.Base.{
  ℕ, ◌≤◌, String, none, List, [], ◌∷◌, ◌≡◌, refl, inl, inr, arith, length, leb, if◌then◌else◌,
  Bool-cases, Option-cases, subst,
}
use mcp_governance_gateway.Base.Eq.{◌==◌, string_eq}
use mcp_governance_gateway.Base.Text.{is_empty}
use mcp_governance_gateway.Base.Dict.{Dict, get, get-remove, length-remove-le}
use mcp_governance_gateway.Errors.{Result, ok, err}
use mcp_governance_gateway.Principal.{Principal}
use mcp_governance_gateway.Runtime.{Runtime}
use mcp_governance_gateway.Value.{Value, Args, str}
use mcp_governance_gateway.Confirm.{
  Config, Entry, Store, owned_of, drop, drop_all, expired, prune, drop_first, evict_own,
  evict_earliest, evict_total, earliest_from, make_room, add, new_entry, issue, verify,
  verify_nonce, verify_entry, owner_key, identity_key, action_key,
}

-- Dropping adds nothing.
pub get-drop :
    (nonce n : String) (s : Store)
    → get n (drop nonce s).pending ≡ (if nonce == n then none else get n s.pending)
unfolding drop
get-drop nonce n s = elim (Option-cases (get nonce s.pending)) [
  | inl e ↦ rw (drop, e) (ground (arith, string_eq.beq_iff nonce n))
  | inr (entry, e) ↦ rw (drop, e) (get-remove nonce n s.pending)
]

pub length-drop-le : (nonce : String) (s : Store) → length (drop nonce s).pending ≤ length s.pending
unfolding drop
length-drop-le nonce s = elim (Option-cases (get nonce s.pending)) [
  | inl e ↦ rw (drop, e) (omega arith)
  | inr (entry, e) ↦ rw (drop, e) (length-remove-le nonce s.pending)
]

pub absent-drop :
    (nonce n : String) (s : Store) → get n s.pending ≡ none → get n (drop nonce s).pending ≡ none
absent-drop nonce n s h = ground (arith, get-drop nonce n s)

pub absent-drop_all :
    (nonces : List String) (n : String) (s : Store)
    → get n s.pending ≡ none
    → get n (drop_all nonces s).pending ≡ none
unfolding drop_all
absent-drop_all [] n s h = h
absent-drop_all (m ∷ ms) n s h = absent-drop_all ms n (drop m s) (absent-drop m n s h)

pub length-drop_all-le :
    (nonces : List String) (s : Store) → length (drop_all nonces s).pending ≤ length s.pending
unfolding drop_all
length-drop_all-le [] s = omega arith
length-drop_all-le (m ∷ ms) s = omega (arith, length-drop-le m s, length-drop_all-le ms (drop m s))

module _ (config : Config) where
  pub evict_own_ind :
      (P : Store → Type 0) (owner : String) (s : Store)
      → ((nonce : String) → P s → P (drop nonce s))
      → P s
      → P (evict_own config owner s)
  unfolding evict_own drop_first
  evict_own_ind P owner s dropped h =
      elim (Bool-cases (leb config.max_per_principal (length (owned_of owner s.owned)))) [
        | inl full ↦ rw full (first (owned_of owner s.owned))
        | inr room ↦ rw room h
      ]
    where
      first : (nonces : List String) → P (drop_first nonces s)
      first [] = h
      first (oldest ∷ rest) = dropped oldest h

  pub evict_total_ind :
      (P : Store → Type 0) (s roomy : Store)
      → ((nonce : String) → P s → P (drop nonce s))
      → P s
      → evict_total config s ≡ ok roomy
      → P roomy
  unfolding evict_total evict_earliest
  evict_total_ind P s roomy dropped h e =
      elim (Bool-cases (leb config.max_entries (length s.pending))) [
        | inl full ↦ earliest s.pending (rw full at e)
        | inr room ↦ let same : ok s ≡ ok roomy = rw room at e in subst P (cc) h
      ]
    where
      earliest : (d : Dict String Entry) → evict_earliest d s ≡ ok roomy → P roomy
      earliest [] none_left = absurd (cc)
      earliest ((n, entry) ∷ d) done = subst P (cc) (dropped (earliest_from n entry.expiry d) h)

  verify_nonce_cases :
      (P : Store → Type 0) (rt : Runtime) (p : Principal) (tool : String) (args : Args)
      (nonce : String) (now : ℕ) (s : Store)
      → P s
      → P (drop nonce s)
      → P (verify_nonce rt config p tool args nonce now s).1
  unfolding verify_nonce verify_entry
  verify_nonce_cases P rt p tool args nonce now s h hd = elim (Option-cases (get nonce s.pending)) [
    | inl e ↦ rw (verify_nonce, e) h
    | inr (entry, e) ↦
        rw (verify_nonce, e)
          (elim (Bool-cases (entry.identity_key == identity_key rt p tool)) [
            | inl id ↦ elim (Bool-cases (leb entry.expiry now)) [
              | inl late ↦ rw (id, late) hd
              | inr live ↦ elim (Bool-cases (entry.action_key == action_key rt p tool args)) [
                | inl act ↦ rw (id, live, act) hd
                | inr changed ↦ rw (id, live, changed) h
              ]
            ]
            | inr other ↦ rw other h
          ])
  ]

  -- `verify` leaves the store, or drops the nonce that is presented.
  pub verify_cases :
      (P : Store → Type 0) (rt : Runtime) (p : Principal) (tool : String) (args : Args)
      (nonce : String) (now : ℕ) (s : Store)
      → P s
      → P (drop nonce s)
      → P (verify rt config p tool args (str nonce) now s).1
  unfolding verify
  verify_cases P rt p tool args nonce now s h hd = elim (Bool-cases (is_empty nonce)) [
    | inl e ↦ rw e h
    | inr e ↦ rw e (verify_nonce_cases P rt p tool args nonce now s h hd)
  ]

  module _ (P : Store → Type 0)
      (dropped : (nonce : String) (s : Store) → P s → P (drop nonce s)) where
    pub drop_all_ind : (nonces : List String) (s : Store) → P s → P (drop_all nonces s)
    unfolding drop_all
    drop_all_ind [] s h = h
    drop_all_ind (n ∷ ns) s h = drop_all_ind ns (drop n s) (dropped n s h)

    pub make_room_ind :
        (rt : Runtime) (p : Principal) (now : ℕ) (s : Store) → P s → P (make_room rt config p now s)
    unfolding make_room prune
    make_room_ind rt p now s h =
        evict_own_ind P (owner_key rt p) (prune now s) (λ n. dropped n (prune now s))
          (drop_all_ind (expired now s.pending) s h)

    -- What dropping keeps, `verify` keeps.
    pub verify_ind :
        (rt : Runtime) (p : Principal) (tool : String) (args : Args) (provided : Value) (now : ℕ)
        (s : Store)
        → P s
        → P (verify rt config p tool args provided now s).1
    unfolding verify
    verify_ind rt p tool args (str nonce) now s h =
        verify_cases P rt p tool args nonce now s h (dropped nonce s h)
    verify_ind rt p tool args _ now s h = h

    -- What dropping keeps holds of the store that `issue` adds its entry to, or leaves on an error.
    pub issue_ind :
        (Q : Store → Type 0) (rt : Runtime) (p : Principal) (tool : String) (args : Args) (now : ℕ)
        (nonce : String) (s : Store)
        → ((s' : Store) → P s' → Q s')
        → ((roomy : Store)
            → P roomy
            → evict_total config (make_room rt config p now s) ≡ ok roomy
            → Q (add nonce (new_entry rt config p tool args now) roomy))
        → P s
        → Q (issue rt config p tool args now nonce s).1
    unfolding issue
    issue_ind Q rt p tool args now nonce s left added h =
        end (evict_total config (make_room rt config p now s)) refl
      where
        room : P (make_room rt config p now s)
        room = make_room_ind rt p now s h

        end :
            (r : Result Store)
            → evict_total config (make_room rt config p now s) ≡ r
            → Q (issue rt config p tool args now nonce s).1
        end (err x) e = rw (issue, e) (left (make_room rt config p now s) room)
        end (ok roomy) e =
            rw (issue, e)
              (added roomy
                (evict_total_ind P (make_room rt config p now s) roomy
                  (λ n. dropped n (make_room rt config p now s)) room e)
                e)
