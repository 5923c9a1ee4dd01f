-- ===== src/Confirm/Isolation.antt =====
-- A confirmation that was issued can be used, and other principals cannot take it away.
use mcp_governance_gateway.Base.{
  ℕ, ◌+◌, ◌*◌, ◌≤◌, ◌<◌, String, true, false, none, some, List, [], ◌∷◌, ◌≡◌, ◌≢◌, refl, sym, ap,
  ◌∙◌, inl, inr, arith, length, leb, Bool-cases,
}
use mcp_governance_gateway.Base.Eq.{◌==◌, string_eq, ==_refl, contains}
use mcp_governance_gateway.Base.Text.{is_empty}
use mcp_governance_gateway.Base.Dict.{Dict, get, get-put}
use mcp_governance_gateway.Errors.{ok}
use mcp_governance_gateway.Principal.{Principal}
use mcp_governance_gateway.Runtime.{Runtime}
use mcp_governance_gateway.Limits.{second}
use mcp_governance_gateway.Value.{Value, Args, str}
use mcp_governance_gateway.Confirm.{
  Config, Entry, Store, owned_of, drop, drop_all, expired, prune, drop_first, evict_own,
  evict_total, make_room, add, new_entry, issue, verify, verify_nonce, verify_entry, identity_key,
  action_key, owner_key,
}
use mcp_governance_gateway.Confirm.Index.{
  IsUnique, IsIndexed, drop-IsIndexed, drop_all-IsIndexed, add-IsIndexed,
}
use mcp_governance_gateway.Confirm.Invariant.{
  get-drop, length-drop_all-le, length-drop-le, evict_own_ind, verify_ind, issue_ind, verify_cases,
  absent-drop,
}
use mcp_governance_gateway.Confirm.Bounds.{owned_by-found}
use mcp_governance_gateway.Confirm.Verdicts.{issue-adds}
use mcp_governance_gateway.Confirm.Runs.{Call, issuing, verifying, step, run}

get-drop_all :
    (nonce : String) (ns : List String) (s : Store)
    → contains nonce ns ≡ false
    → get nonce (drop_all ns s).pending ≡ get nonce s.pending
unfolding drop_all
get-drop_all nonce [] s h = refl
get-drop_all nonce (n ∷ ns) s h =
    let rest : contains nonce ns ≡ false = ground arith in
    let other : (n == nonce) ≡ false = ground arith in
    get-drop_all nonce ns (drop n s) rest ∙ rw (get-drop, other)

absent-expired :
    (nonce : String) (now : ℕ) (d : Dict String Entry)
    → get nonce d ≡ none
    → contains nonce (expired now d) ≡ false
unfolding expired get
absent-expired nonce now [] h = refl
absent-expired nonce now ((n, entry) ∷ d) h = ground (arith, absent-expired nonce now d)

live-expired :
    (nonce : String) (now : ℕ) (d : Dict String Entry) (entry : Entry)
    → IsUnique d
    → get nonce d ≡ some entry
    → now < entry.expiry
    → contains nonce (expired now d) ≡ false
unfolding expired get
live-expired nonce now [] entry u found live = refl
live-expired nonce now ((n, other) ∷ d) entry u found live = ground (
  arith,
  string_eq.beq_iff n nonce,
  absent-expired nonce now d,
  live-expired nonce now d entry u.1,
)

issue-IsIndexed :
    (rt : Runtime) (config : Config) (p : Principal) (tool : String) (args : Args) (now : ℕ)
    (n : String) (s : Store)
    → get n s.pending ≡ none
    → IsIndexed s
    → IsIndexed (issue rt config p tool args now n s).1
issue-IsIndexed rt config p tool args now n s fresh i =
    issue_ind config (λ t. IsIndexed t × (get n t.pending ≡ none))
      (λ m t h. (drop-IsIndexed m t h.0, absent-drop m n t h.1)) IsIndexed rt p tool args now n s
      (λ t h. h.0)
      (λ roomy h _. add-IsIndexed n (new_entry rt config p tool args now) roomy h.1 h.0) (i, fresh)

-- A pending entry that is live stays, whatever another owner issues while there is room in all.
module _ (rt : Runtime) (config : Config) (nonce : String) (entry : Entry) where
  abbrev Holds : Store → Type 0
  Holds s = get nonce s.pending ≡ some entry

  prune-Holds :
      (now : ℕ) (s : Store) → IsIndexed s → Holds s → now < entry.expiry → Holds (prune now s)
  unfolding prune
  prune-Holds now s i h live =
      get-drop_all nonce (expired now s.pending) s
        (live-expired nonce now s.pending entry i.unique h live)
      ∙ h

  evict_own-Holds :
      (owner : String) (s : Store)
      → IsIndexed s
      → Holds s
      → owner ≢ entry.owner
      → Holds (evict_own config owner s)
  unfolding evict_own drop_first
  evict_own-Holds owner s i h other =
      elim (Bool-cases (leb config.max_per_principal (length (owned_of owner s.owned)))) [
        | inl full ↦ rw full (first (owned_of owner s.owned) refl)
        | inr room ↦ rw room h
      ]
    where
      first : (nonces : List String) → owned_of owner s.owned ≡ nonces → Holds (drop_first nonces s)
      first [] e = h
      first (oldest ∷ rest) e =
          let (theirs, found, owns) =
            owned_by-found owner oldest rest s.pending (sym (i.agrees owner) ∙ e) i.unique in
          ground (arith, get-drop oldest nonce s, string_eq.beq_iff oldest nonce)

  issue-Holds :
      (p : Principal) (tool : String) (args : Args) (now : ℕ) (n : String) (s : Store)
      → IsIndexed s
      → Holds s
      → now < entry.expiry
      → owner_key rt p ≢ entry.owner
      → n ≢ nonce
      → length s.pending < config.max_entries
      → Holds (issue rt config p tool args now n s).1
  unfolding issue make_room evict_total add
  issue-Holds p tool args now n s i h live other fresh room =
      rw (issue, evict_total, small)
        (ground (
          arith,
          get-put n nonce (new_entry rt config p tool args now) s'.pending,
          kept,
          string_eq.beq_iff n nonce,
        ))
    where
      pruned : Store
      pruned = prune now s

      s' : Store
      s' = make_room rt config p now s

      kept : Holds s'
      kept =
          evict_own-Holds (owner_key rt p) pruned (drop_all-IsIndexed (expired now s.pending) s i)
            (prune-Holds now s i h live) other

      le : length s'.pending ≤ length s.pending
      le =
          evict_own_ind config (λ t. length t.pending ≤ length s.pending) (owner_key rt p) pruned
            (λ m before. omega (arith, length-drop-le m pruned, before))
            (length-drop_all-le (expired now s.pending) s)

      small : leb config.max_entries (length s'.pending) ≡ false
      small = ground (arith, le)

  -- The calls that come between: other owners' issues, each with a nonce of its own, before the
  -- entry expires and with room in all, and verifications of other nonces.
  abbrev pub Undisturbed : Store → List Call → Type 0
  Undisturbed s [] = Unit
  Undisturbed s (issuing p tool args now n ∷ cs) =
      (owner_key rt p ≢ entry.owner)
      × (n ≢ nonce)
      × (get n s.pending ≡ none)
      × (now < entry.expiry)
      × (length s.pending < config.max_entries)
      × Undisturbed (step rt config s (issuing p tool args now n)) cs
  Undisturbed s (verifying p tool args provided now ∷ cs) =
      (provided ≢ str nonce)
      × Undisturbed (step rt config s (verifying p tool args provided now)) cs

  verify-Holds :
      (p : Principal) (tool : String) (args : Args) (provided : Value) (now : ℕ) (s : Store)
      → provided ≢ str nonce
      → Holds s
      → Holds (verify rt config p tool args provided now s).1
  unfolding verify
  verify-Holds p tool args (str n) now s other h =
      verify_cases config Holds rt p tool args n now s h (rw (get-drop, distinct) h)
    where
      distinct : (n == nonce) ≡ false
      distinct = elim (Bool-cases (n == nonce)) [
        | inl same ↦ absurd (other (ap str ((string_eq.beq_iff n nonce).0 same)))
        | inr e ↦ e
      ]
  verify-Holds p tool args _ now s other h = h

  run-Holds :
      (cs : List Call) (s : Store)
      → IsIndexed s
      → Holds s
      → Undisturbed s cs
      → Holds (run rt config s cs)
  unfolding run step
  run-Holds [] s i h u = h
  run-Holds (issuing p tool args now n ∷ cs) s i h (other, own, fresh, live, room, rest) =
      run-Holds cs (issue rt config p tool args now n s).1
        (issue-IsIndexed rt config p tool args now n s fresh i)
        (issue-Holds p tool args now n s i h live other own room) rest
  run-Holds (verifying p tool args provided now ∷ cs) s i h (other, rest) =
      run-Holds cs (verify rt config p tool args provided now s).1
        (verify_ind config IsIndexed drop-IsIndexed rt p tool args provided now s i)
        (verify-Holds p tool args provided now s other h) rest

verify-Holds_ok :
    (rt : Runtime) (config : Config) (p : Principal) (tool : String) (args : Args) (now now' : ℕ)
    (nonce : String) (s : Store)
    → is_empty nonce ≡ false
    → get nonce s.pending ≡ some (new_entry rt config p tool args now)
    → now' < now + config.ttl_sec * second
    → (verify rt config p tool args (str nonce) now' s).0 ≡ (true, none)
unfolding verify verify_nonce verify_entry new_entry
verify-Holds_ok rt config p tool args now now' nonce s ne h live =
    let on_time : leb (now + config.ttl_sec * second) now' ≡ false = ground arith in
    rw (
      ne,
      verify_nonce,
      h,
      ==_refl (identity_key rt p tool),
      on_time,
      ==_refl (action_key rt p tool args),
    )

-- A caller whose write was prepared can confirm it within the TTL, with the same tool and arguments,
-- whatever other principals prepare in between (while there is room in all) and whoever tries other
-- confirmation ids: no other principal can take a pending confirmation away.
pub confirm-available :
    (rt : Runtime) (config : Config) (p : Principal) (tool : String) (args : Args) (now now' : ℕ)
    (nonce : String) (s : Store) (cs : List Call)
    → IsIndexed s
    → is_empty nonce ≡ false
    → get nonce s.pending ≡ none
    → (issue rt config p tool args now nonce s).0 ≡ ok nonce
    → Undisturbed rt config nonce
        (new_entry rt config p tool args now)
        (issue rt config p tool args now nonce s).1
        cs
    → now' < now + config.ttl_sec * second
    → (verify rt config p tool args
        (str nonce)
        now'
        (run rt config (issue rt config p tool args now nonce s).1 cs)).0
      ≡ (true, none)
confirm-available rt config p tool args now now' nonce s cs i ne fresh issued u live =
    let s' = (issue rt config p tool args now nonce s).1 in
    verify-Holds_ok rt config p tool args now now' nonce (run rt config s' cs) ne
      (run-Holds rt config nonce (new_entry rt config p tool args now) cs s'
        (issue-IsIndexed rt config p tool args now nonce s fresh i)
        (issue-adds rt config p tool args now nonce s issued) u)
      live
