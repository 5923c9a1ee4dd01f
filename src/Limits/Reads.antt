-- ===== src/Limits/Reads.antt =====
-- The read limit against its specification, which counts in the history of all granted reads.
use mcp_governance_gateway.Base.{
  ℕ, ◌≤◌, ◌<◌, ◌≡◌, refl, List, [], ◌∷◌, arith, leb, eqb, if◌then◌else◌, Bool-cases, inl, inr, ◌<>◌,
}
use mcp_governance_gateway.Base.Eq.{string_eq, pair_eq}
use mcp_governance_gateway.Base.Text.{show}
use mcp_governance_gateway.Principal.{Principal}
use mcp_governance_gateway.Limits.{
  User, User, MemoryLimitConfig, Limiter, fresh, LimitDecision, granted, refused, user_of,
  check_read,
}
use mcp_governance_gateway.Limits.Window.{
  recent_cons, recent-le, user_eq_iff, History, recent, Tracks, Tracks-fresh, Tracks-purge,
  Tracks-later, Tracks-grant,
}

module _ (config : MemoryLimitConfig) where
  -- The decision by counting, over the whole history.
  pub spec_read : History → Principal → ℕ → LimitDecision × History
  spec_read h p now =
      let limit = config.user_reads_per_minute in
      if eqb limit 0
      then (granted "per-user read rate disabled", h)
      else if leb limit (recent now (user_of p) h)
      then (
        refused ("per-user read rate exceeds " <> show limit <> " memory read calls per minute"),
        h,
      )
      else (granted "per-user read rate within quota", (user_of p, now) ∷ h)

  -- Calls in order of time, each answered by the limiter or by the specification.
  unfoldable pub read_all : Limiter → List (Principal × ℕ) → List LimitDecision
  read_all s [] = []
  read_all s ((p, now) ∷ calls) =
      let (decision, s') = check_read config s p now in decision ∷ read_all s' calls

  pub spec_all : History → List (Principal × ℕ) → List LimitDecision
  spec_all h [] = []
  spec_all h ((p, now) ∷ calls) =
      let (decision, h') = spec_read h p now in decision ∷ spec_all h' calls

  pub record ReadStep (s : Limiter) (h : History) (p : Principal) (now : ℕ) : Type 0 where
    pub same : (check_read config s p now).0 ≡ (spec_read h p now).0
    pub tracks : Tracks (check_read config s p now).1.user_minute_reads (spec_read h p now).1 now

  check_read-step :
      (s : Limiter) (h : History) (p : Principal) (now clock : ℕ)
      → Tracks s.user_minute_reads h clock
      → clock ≤ now
      → ReadStep s h p now
  unfolding check_read spec_read
  check_read-step s h p now clock t le = elim (Bool-cases (eqb config.user_reads_per_minute 0)) [
    | inl off ↦ record { same = rw off; tracks = rw off (Tracks-later now t le) }
    | inr on ↦ elim (Bool-cases (leb config.user_reads_per_minute (recent now (user_of p) h))) [
      | inl full ↦ record {
        same = rw (on, t.counted (user_of p) now le, full);
        tracks = rw (on, t.counted (user_of p) now le, full) (Tracks-purge (user_of p) now t le);
      }
      | inr room ↦ record {
        same = rw (on, t.counted (user_of p) now le, room);
        tracks = rw (on, t.counted (user_of p) now le, room) (Tracks-grant (user_of p) now t le);
      }
    ]
  ]

-- The clock does not run backwards from one call to the next.
abbrev pub InOrder : ℕ → List (Principal × ℕ) → Type 0
InOrder clock [] = Unit
InOrder clock ((p, now) ∷ calls) = (clock ≤ now) × InOrder now calls

read_all-eq-spec :
    (config : MemoryLimitConfig) (calls : List (Principal × ℕ)) (s : Limiter) (h : History)
    (clock : ℕ)
    → Tracks s.user_minute_reads h clock
    → InOrder clock calls
    → read_all config s calls ≡ spec_all config h calls
unfolding read_all spec_all
read_all-eq-spec config [] s h clock t o = refl
read_all-eq-spec config ((p, now) ∷ calls) s h clock t o =
    let step = check_read-step config s h p now clock t o.0 in
    cc (
      step.same,
      read_all-eq-spec config calls (check_read config s p now).1 (spec_read config h p now).1 now
          step.tracks o.1,
    )

-- From a fresh limiter and a clock that does not run backwards, the limiter answers each read as
-- counting all reads that were granted to the same user in the last 60 seconds would.
pub read_all-refines :
    (config : MemoryLimitConfig) (calls : List (Principal × ℕ))
    → InOrder 0 calls
    → read_all config fresh calls ≡ spec_all config [] calls
read_all-refines config calls o = read_all-eq-spec config calls fresh [] 0 Tracks-fresh o

module _ (config : MemoryLimitConfig) where
  -- The reads that the limiter itself granted, the newest first, behind those of `h`.
  pub granted_reads : Limiter → History → List (Principal × ℕ) → History
  granted_reads s h [] = h
  granted_reads s h ((p, now) ∷ calls) =
      let (decision, s') = check_read config s p now in
      granted_reads s' (if decision.allowed then (user_of p, now) ∷ h else h) calls

  unfoldable pub last_time : ℕ → List (Principal × ℕ) → ℕ
  last_time clock [] = clock
  last_time clock ((p, now) ∷ calls) = last_time now calls

  abbrev WithinLimit : History → ℕ → Type 0
  WithinLimit h clock =
      (u : User) (later : ℕ) → clock ≤ later → recent later u h ≤ config.user_reads_per_minute

  spec_read-WithinLimit :
      (h : History) (p : Principal) (now clock : ℕ)
      → WithinLimit h clock
      → clock ≤ now
      → WithinLimit (spec_read config h p now).1 now
  unfolding spec_read
  spec_read-WithinLimit h p now clock w le u later le' = ground (
    arith,
    w u later,
    recent_cons later now (user_of p) u h,
    recent-le now later u h le',
    user_eq_iff (user_of p) u,
  )

  spec_read-log :
      (h : History) (p : Principal) (now : ℕ)
      → 0 < config.user_reads_per_minute
      → (spec_read config h p now).1
        ≡ (if (spec_read config h p now).0.allowed then (user_of p, now) ∷ h else h)
  unfolding spec_read
  spec_read-log h p now on = ground arith

  granted_reads-WithinLimit :
      (calls : List (Principal × ℕ)) (s : Limiter) (h : History) (clock : ℕ)
      → 0 < config.user_reads_per_minute
      → Tracks s.user_minute_reads h clock
      → WithinLimit h clock
      → InOrder clock calls
      → WithinLimit (granted_reads s h calls) (last_time clock calls)
  unfolding granted_reads last_time
  granted_reads-WithinLimit [] s h clock on t w o = w
  granted_reads-WithinLimit ((p, now) ∷ calls) s h clock on t w o =
      let step = check_read-step config s h p now clock t o.0 in
      let log = spec_read-log h p now on in
      rw (step.same, ← log)
        (granted_reads-WithinLimit calls (check_read config s p now).1 (spec_read config h p now).1
          now on step.tracks (spec_read-WithinLimit h p now clock w o.0) o.1)

-- From a fresh limiter and a clock that does not run backwards, while a read limit is set: whatever
-- reads are asked for, after the last of them no user has more granted reads that are less than 60 seconds old than the limit.
pub granted_reads-le_limit :
    (config : MemoryLimitConfig) (calls : List (Principal × ℕ)) (u : User) (later : ℕ)
    → 0 < config.user_reads_per_minute
    → InOrder 0 calls
    → last_time config 0 calls ≤ later
    → recent later u (granted_reads config fresh [] calls) ≤ config.user_reads_per_minute
granted_reads-le_limit config calls u later on o le =
    granted_reads-WithinLimit config calls fresh [] 0 on Tracks-fresh
      (λ v t _. unfold recent in omega arith) o u later le
