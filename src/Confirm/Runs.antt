-- ===== src/Confirm/Runs.antt =====
-- Sequences of calls of the store, whoever makes them, and the invariant over them.
use mcp_governance_gateway.Base.{
  ℕ, ◌≤◌, ◌<◌, String, none, List, [], ◌∷◌, ◌≡◌, refl, arith, length, length-append,
}
use mcp_governance_gateway.Base.Eq.{string_eq}
use mcp_governance_gateway.Base.Dict.{get}
use mcp_governance_gateway.Errors.{Result, ok, err}
use mcp_governance_gateway.Principal.{Principal}
use mcp_governance_gateway.Runtime.{Runtime}
use mcp_governance_gateway.Value.{Value, Args}
use mcp_governance_gateway.Confirm.{
  Config, Entry, Store, empty, owned_of, drop, evict_total, make_room, prune, add, new_entry, issue,
  verify, owner_key, drop_all, expired,
}
use mcp_governance_gateway.Confirm.Index.{owned_by, add-IsIndexed, owned_of-put}
use mcp_governance_gateway.Confirm.Invariant.{
  verify_ind, absent-drop, drop_all_ind, evict_own_ind, absent-drop_all, evict_total_ind,
}
use mcp_governance_gateway.Confirm.Bounds.{
  IsSound, drop-IsSound, evict_own-lt, evict_total-lt, length-put-le, length-owned-drop-le,
}

-- One call of the store. The reading of the clock and the nonce drawn stand in the call.
pub data Call : Type 0 where
  issuing : Principal → String → Args → (now : ℕ) → (nonce : String) → Call
  verifying : Principal → String → Args → Value → (now : ℕ) → Call

module _ (rt : Runtime) (config : Config) where
  unfoldable pub step : Store → Call → Store
  step s (issuing p tool args now nonce) = (issue rt config p tool args now nonce s).1
  step s (verifying p tool args provided now) = (verify rt config p tool args provided now s).1

  unfoldable pub run : Store → List Call → Store
  unfolding step
  run s [] = s
  run s (c ∷ cs) = run (step s c) cs

  -- Each nonce that is drawn is not pending: `secrets` does not repeat one.
  abbrev pub DrawsFresh : Store → List Call → Type 0
  DrawsFresh s [] = Unit
  DrawsFresh s (issuing p tool args now nonce ∷ cs) =
      (get nonce s.pending ≡ none) × DrawsFresh (step s (issuing p tool args now nonce)) cs
  DrawsFresh s (c ∷ cs) = DrawsFresh (step s c) cs

  -- The invariant with room for one more nonce of the owner, none of it `nonce`.
  record HasRoom (owner nonce : String) (s : Store) : Type 0 where
    sound : IsSound config s
    below : length (owned_of owner s.owned) < config.max_per_principal
    fresh : get nonce s.pending ≡ none

  drop-HasRoom :
      (owner nonce : String) (n : String) (s : Store)
      → HasRoom owner nonce s
      → HasRoom owner nonce (drop n s)
  drop-HasRoom owner nonce n s h = record {
    sound = drop-IsSound config n s h.sound;
    below = omega (arith, length-owned-drop-le owner n s, h.below);
    fresh = absent-drop n nonce s h.fresh;
  }

  add-IsSound :
      (nonce : String) (entry : Entry) (s : Store)
      → HasRoom entry.owner nonce s
      → length s.pending < config.max_entries
      → IsSound config (add nonce entry s)
  unfolding add
  add-IsSound nonce entry s h lt = record {
    indexed = add-IsIndexed nonce entry s h.fresh h.sound.indexed;
    bounded = record {
      total = omega (arith, length-put-le nonce entry s.pending);
      each = λ o. rw owned_of-put (
          ground (
            arith,
            h.below,
            h.sound.bounded.each o,
            length-append {0} (owned_of entry.owner s.owned) (nonce ∷ []),
          ));
    };
  }

  module _ (cap : 1 ≤ config.max_per_principal) where
    make_room-HasRoom :
        (p : Principal) (now : ℕ) (nonce : String) (s : Store)
        → IsSound config s
        → get nonce s.pending ≡ none
        → HasRoom (owner_key rt p) nonce (make_room rt config p now s)
    unfolding make_room prune
    make_room-HasRoom p now nonce s h fresh =
        let pruned =
          drop_all_ind config (IsSound config) (drop-IsSound config) (expired now s.pending) s h in
        let owner = owner_key rt p in
        let s' = drop_all (expired now s.pending) s in
        record {
          sound =
              evict_own_ind config (IsSound config) owner s' (λ n. drop-IsSound config n s') pruned;
          below = evict_own-lt config owner s' cap pruned;
          fresh =
              evict_own_ind config (λ t. get nonce t.pending ≡ none) owner s'
                (λ n. absent-drop n nonce s')
                (absent-drop_all (expired now s.pending) nonce s fresh);
        }

    issue-IsSound :
        (p : Principal) (tool : String) (args : Args) (now : ℕ) (nonce : String) (s : Store)
        → get nonce s.pending ≡ none
        → IsSound config s
        → IsSound config (issue rt config p tool args now nonce s).1
    unfolding issue
    issue-IsSound p tool args now nonce s fresh h = end (evict_total config s') refl
      where
        s' : Store
        s' = make_room rt config p now s

        room : HasRoom (owner_key rt p) nonce s'
        room = make_room-HasRoom p now nonce s h fresh

        end :
            (r : Result Store)
            → evict_total config s' ≡ r
            → IsSound config (issue rt config p tool args now nonce s).1
        end (err x) e = rw (issue, e) room.sound
        end (ok roomy) e =
            rw (issue, e)
              (add-IsSound nonce (new_entry rt config p tool args now) roomy
                (evict_total_ind config (HasRoom (owner_key rt p) nonce) s' roomy
                  (λ n. drop-HasRoom (owner_key rt p) nonce n s') room e)
                (evict_total-lt config s' roomy room.sound.bounded.total e))

    step-IsSound :
        (s : Store) (c : Call) (cs : List Call)
        → DrawsFresh s (c ∷ cs)
        → IsSound config s
        → IsSound config (step s c)
    unfolding step
    step-IsSound s (issuing p tool args now nonce) cs f h =
        issue-IsSound p tool args now nonce s f.0 h
    step-IsSound s (verifying p tool args provided now) cs f h =
        verify_ind config (IsSound config) (drop-IsSound config) rt p tool args provided now s h

    run-keeps :
        (s : Store) (cs : List Call)
        → DrawsFresh s cs
        → IsSound config s
        → IsSound config (run s cs)
    unfolding run
    run-keeps s [] f h = h
    run-keeps s (issuing p tool args now nonce ∷ cs) f h =
        run-keeps (step s (issuing p tool args now nonce)) cs f.1
          (step-IsSound s (issuing p tool args now nonce) cs f h)
    run-keeps s (verifying p tool args provided now ∷ cs) f h =
        run-keeps (step s (verifying p tool args provided now)) cs f
          (step-IsSound s (verifying p tool args provided now) cs f h)

empty-IsSound : (config : Config) → IsSound config empty
unfolding owned_of owned_by get
empty-IsSound config = record {
  indexed = record { unique = tt; agrees = λ o. refl; kept = λ o e. cc };
  bounded = record { total = omega arith; each = λ o. omega arith };
}

-- From an empty store with a cap of at least one, after any calls whose nonces are fresh: at most
-- `max_entries` confirmations are pending and at most `max_per_principal` of any owner, no nonce is
-- pending twice, and each owner's list holds exactly its pending nonces, the oldest first, and is
-- not kept when it is empty.
pub run-IsSound :
    (rt : Runtime) (config : Config) (cs : List Call)
    → 1 ≤ config.max_per_principal
    → DrawsFresh rt config empty cs
    → IsSound config (run rt config empty cs)
run-IsSound rt config cs cap f = run-keeps rt config cap empty cs f (empty-IsSound config)
