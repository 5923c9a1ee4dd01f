-- ===== src/Hotfile/Follows.antt =====
-- A reloaded value against parsing the file at each access.
-- Code: `refresh` of mcp_governance_gateway/hotfile.py.
use mcp_governance_gateway.Base.{
  ℕ, ◌≡◌, refl, sym, ap, ◌∙◌, subst, inl, inr, Bool, true, false, not, Option, some, List, [], ◌∷◌,
  Bool-cases,
}
use mcp_governance_gateway.Base.Eq.{nat_eq, pair_eq, option_eq, string_eq, list_eq}
use mcp_governance_gateway.Errors.{Result, ok, err, is_ok}
use mcp_governance_gateway.Hotfile.{
  Signature, Reloading, Access, start, keep_last_good, reload, refresh,
}

module _ {T : Type 0} (parsed : Signature → Result T) where
  -- An access that finds a file in one state: what it parses to depends on its signature alone.
  abbrev pub access : Signature × ℕ → Access T
  access (g, now) = record { seen = g; locked = g; parsed = λ _. parsed g; now = now }

  -- The value with what was parsed, or as it was.
  abbrev pub good : Result T → T → T
  good (ok v) u = v
  good (err e) u = u

  -- Accesses one after another, and the reference that parses the file at each.
  unfoldable pub follow : Bool → List (Signature × ℕ) → Reloading T → Reloading T
  unfolding refresh
  follow retry [] s = s
  follow retry (a ∷ later) s = follow retry later (refresh true retry (access a) s)

  unfoldable pub last_good : List (Signature × ℕ) → T → T
  last_good [] u = u
  last_good ((g, now) ∷ later) u = last_good later (good (parsed g) u)

  -- What is recorded as seen is in the value, and `stale` says whether it failed.
  record IsSeen (s : Reloading T) : Type 0 where
    kept : (g : Signature) → s.sig ≡ some g → good (parsed g) s.value ≡ s.value

  good_twice : (r : Result T) (u : T) → good r (good r u) ≡ good r u
  good_twice (ok v) u = refl
  good_twice (err e) u = refl

  -- The first of two equal signatures stands for both.
  same_good :
      (g k : Signature) (u : T)
      → ◌≡◌ {A = Option Signature} (some g) (some k)
      → good (parsed g) u ≡ u
      → good (parsed k) u ≡ u
  same_good g k u e h = let same : g ≡ k = cc in subst (λ x. good (parsed x) u ≡ u) same h

  module _ (retry : Bool) (g : Signature) (now : ℕ) (s : Reloading T) where
    -- An access that found something new.
    reload-IsSeen :
        IsSeen s
        → IsSeen (reload retry (access (g, now)) s)
          × ((reload retry (access (g, now)) s).value ≡ good (parsed g) s.value)
    unfolding reload keep_last_good
    reload-IsSeen h = go (parsed g) refl
      where
        go :
            (r : Result T)
            → parsed g ≡ r
            → IsSeen (reload retry (access (g, now)) s)
              × ((reload retry (access (g, now)) s).value ≡ good (parsed g) s.value)
        go (ok v) e = (
          record {
            kept = λ k same. rw (reload, e) (same_good g k v (rw (reload, e) at same) (rw e));
          },
          rw (reload, e),
        )
        go (err x) e = elim (Bool-cases retry) [
          | inl again ↦ (
            record {
              kept = λ k same.
                  rw (reload, e) (h.kept k (rw (reload, e, keep_last_good, again) at same));
            },
            rw (reload, e),
          )
          | inr once ↦ (
            record {
              kept = λ k same.
                  rw (reload, e)
                    (same_good g k s.value (rw (reload, e, keep_last_good, once) at same) (rw e));
            },
            rw (reload, e),
          )
        ]

    refresh-IsSeen :
        IsSeen s
        → IsSeen (refresh true retry (access (g, now)) s)
          × ((refresh true retry (access (g, now)) s).value ≡ good (parsed g) s.value)
    unfolding refresh
    refresh-IsSeen h = elim (Bool-cases (option_eq.beq (some g) s.sig)) [
      | inl e ↦
          let seen : some g ≡ s.sig = (option_eq.beq_iff (some g) s.sig).0 e in
          (rw e h, rw e (sym (h.kept g (sym seen))))
      | inr e ↦ rw e (reload-IsSeen h)
    ]

  follow-last_good :
      (retry : Bool) (accesses : List (Signature × ℕ)) (s : Reloading T)
      → IsSeen s
      → (follow retry accesses s).value ≡ last_good accesses s.value
  unfolding follow last_good
  follow-last_good retry [] s h = refl
  follow-last_good retry ((g, now) ∷ later) s h =
      let (seen, value) = refresh-IsSeen retry g now s h in
      follow-last_good retry later (refresh true retry (access (g, now)) s) seen
      ∙ ap (last_good later) value

  start-IsSeen : (initial : T) → IsSeen (start true initial)
  unfolding start
  start-IsSeen initial = record { kept = λ g no. absurd (cc) }

  -- The last parse that was recorded tells `stale`.
  record IsTold (s : Reloading T) : Type 0 where
    told : (g : Signature) → s.sig ≡ some g → s.stale ≡ not (is_ok (parsed g))

  same_told :
      (g k : Signature) (b : Bool)
      → ◌≡◌ {A = Option Signature} (some g) (some k)
      → b ≡ not (is_ok (parsed g))
      → b ≡ not (is_ok (parsed k))
  same_told g k b e h = let same : g ≡ k = cc in subst (λ x. b ≡ not (is_ok (parsed x))) same h

  reload-IsTold :
      (g : Signature) (now : ℕ) (s : Reloading T)
      → IsTold (reload false (access (g, now)) s)
        × ((reload false (access (g, now)) s).stale ≡ not (is_ok (parsed g)))
  unfolding reload keep_last_good
  reload-IsTold g now s = go (parsed g) refl
    where
      go :
          (r : Result T)
          → parsed g ≡ r
          → IsTold (reload false (access (g, now)) s)
            × ((reload false (access (g, now)) s).stale ≡ not (is_ok (parsed g)))
      go (ok v) e = (
        record {
          told = λ k same. rw (reload, e) (same_told g k false (rw (reload, e) at same) (rw e));
        },
        rw (reload, e),
      )
      go (err x) e = (
        record {
          told = λ k same. rw (reload, e) (same_told g k true (rw (reload, e) at same) (rw e));
        },
        rw (reload, e),
      )

  refresh-IsTold :
      (g : Signature) (now : ℕ) (s : Reloading T)
      → IsTold s
      → IsTold (refresh true false (access (g, now)) s)
        × ((refresh true false (access (g, now)) s).stale ≡ not (is_ok (parsed g)))
  unfolding refresh
  refresh-IsTold g now s h = elim (Bool-cases (option_eq.beq (some g) s.sig)) [
    | inl e ↦
        let seen : some g ≡ s.sig = (option_eq.beq_iff (some g) s.sig).0 e in
        (rw e h, rw e (h.told g (sym seen)))
    | inr e ↦ rw e (reload-IsTold g now s)
  ]

  follow-IsTold :
      (accesses : List (Signature × ℕ)) (s : Reloading T)
      → IsTold s
      → IsTold (follow false accesses s)
  unfolding follow
  follow-IsTold [] s h = h
  follow-IsTold ((g, now) ∷ later) s h =
      follow-IsTold later (refresh true false (access (g, now)) s) (refresh-IsTold g now s h).0

-- If what a file parses to depends on its signature alone, then after any accesses the value that
-- follows the file is the one that parsing it at each access, and keeping the last good value, would
-- give; whether failures are retried or not.
pub follow-refines :
    {T : Type 0} (parsed : Signature → Result T) (retry : Bool) (initial : T)
    (accesses : List (Signature × ℕ))
    → (follow parsed retry accesses (start true initial)).value ≡ last_good parsed accesses initial
unfolding start
follow-refines parsed retry initial accesses =
    follow-last_good parsed retry accesses (start true initial) (start-IsSeen parsed initial)

-- Where failures are not retried and what a file parses to depends on its signature alone, `stale`
-- says after each access whether the file as it now is fails to parse.
pub stale-tells :
    {T : Type 0} (parsed : Signature → Result T) (initial : T) (accesses : List (Signature × ℕ))
    (g : Signature) (now : ℕ)
    → (refresh true false
        (access parsed (g, now))
        (follow parsed false accesses (start true initial))).stale
      ≡ not (is_ok (parsed g))
unfolding start
stale-tells parsed initial accesses g now =
    (refresh-IsTold parsed g now (follow parsed false accesses (start true initial)) (
      follow-IsTold parsed accesses (start true initial) (record { told = λ k no. absurd (cc) }))).1
