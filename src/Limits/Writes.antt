-- ===== src/Limits/Writes.antt =====
-- The write limits against their specification, which counts in the history of all accepted writes.
use mcp_governance_gateway.Base.{
  ℕ, suc, ◌+◌, ◌≤◌, ◌<◌, ◌≡◌, refl, Bool, true, false, not, ◌&&◌, some, List, [], ◌∷◌, arith, leb,
  ltb, eqb, length, if◌then◌else◌, Bool-cases, inl, inr, String, ◌<>◌,
}
use mcp_governance_gateway.Base.Eq.{string_eq, pair_eq, ◌==◌}
use mcp_governance_gateway.Base.Dict.{Dict, get, put, get-put}
use mcp_governance_gateway.Base.Text.{show}
use mcp_governance_gateway.Principal.{Principal}
use Prim.Native.String.{len}
use mcp_governance_gateway.Limits.{
  user_reason, project_reason, MemoryLimitConfig, Limiter, fresh, LimitDecision, granted, refused,
  user_of, times_of, purge, used_on, day_index, record_write, check_and_record,
  check_user_minute_limit, check_project_day_limit,
}
use mcp_governance_gateway.Limits.Window.{
  History, recent, Tracks, Tracks-fresh, Tracks-purge, Tracks-append, Tracks-later,
}

-- How many accepted writes to a project fell on a day.
unfoldable pub written_on : ℕ → String → History → ℕ
written_on day project [] = 0
written_on day project ((user, t) ∷ h) =
    let rest = written_on day project h in
    if (user.1 == project) && eqb (day_index t) day then suc rest else rest

-- The stored pairs tell, from the time `clock` on, how much of a day's quota is used.
record CountsDays (d : Dict String (ℕ × ℕ)) (h : History) (clock : ℕ) : Type 0 where
  counted :
      (project : String) (day : ℕ)
      → day_index clock ≤ day
      → used_on day (get project d) ≡ written_on day project h

day_index_mono : (a b : ℕ) → a ≤ b → day_index a ≤ day_index b
unfolding day_index
day_index_mono a b h = omega arith

CountsDays-later :
    {d : Dict String (ℕ × ℕ)} {h : History} (clock now : ℕ)
    → CountsDays d h clock
    → clock ≤ now
    → CountsDays d h now
CountsDays-later clock now c le = record {
  counted = λ project day le'. c.counted project day (omega (arith, day_index_mono clock now le));
}

used_on_one :
    (day today count : ℕ) → used_on day (some (today, count)) ≡ (if eqb today day then count else 0)
unfolding used_on
used_on_one day today count = refl

-- One more write today. From a later day on, nothing that is stored now counts.
CountsDays-put :
    (actor project : String) (now : ℕ) {d : Dict String (ℕ × ℕ)} {h : History}
    → CountsDays d h now
    → ((day : ℕ) → day_index now < day → written_on day project h ≡ 0)
    → CountsDays
        (put project (day_index now, used_on (day_index now) (get project d) + 1) d)
        (((actor, project), now) ∷ h)
        now
unfolding written_on
CountsDays-put actor project now {d} {h} c past = record {
  counted = λ other day le. rw get-put (
      ground (
        arith,
        used_on_one day (day_index now) (used_on (day_index now) (get project d) + 1),
        c.counted other day,
        c.counted project (day_index now),
        past day,
        string_eq.beq_iff project other,
      ));
}

module _ (config : MemoryLimitConfig) where
  open config use {max_save_text_bytes, user_writes_per_minute, project_writes_per_day}

  -- The user has used up the last 60 seconds, the project has used up the day.
  abbrev over_user : History → Principal → ℕ → Bool
  over_user h p now =
      not (eqb user_writes_per_minute 0) && leb user_writes_per_minute (recent now (user_of p) h)

  abbrev over_project : History → Principal → ℕ → Bool
  over_project h p now =
      not (eqb project_writes_per_day 0)
      && leb project_writes_per_day (written_on (day_index now) p.project h)

  -- The decision by counting, over the whole history.
  pub spec_write : History → Principal → String → ℕ → LimitDecision × History
  spec_write h p text now =
      if not (eqb max_save_text_bytes 0) && ltb max_save_text_bytes (len text)
      then (refused ("memory.save text exceeds " <> show max_save_text_bytes <> " bytes"), h)
      else if over_user h p now
      then (refused (user_reason config), h)
      else if over_project h p now
      then (refused (project_reason config), h)
      else (granted "memory write within quota", (user_of p, now) ∷ h)

  record WriteState (s : Limiter) (h : History) (clock : ℕ) : Type 0 where
    pub users : eqb user_writes_per_minute 0 ≡ false → Tracks s.user_minute_writes h clock
    pub days : eqb project_writes_per_day 0 ≡ false → CountsDays s.project_day_writes h clock
    pub past : (project : String) (day : ℕ) → day_index clock < day → written_on day project h ≡ 0

  WriteState-later :
      {s : Limiter} {h : History} (clock now : ℕ)
      → WriteState s h clock
      → clock ≤ now
      → WriteState s h now
  WriteState-later clock now w le = record {
    users = λ on. Tracks-later now (w.users on) le;
    days = λ on. CountsDays-later clock now (w.days on) le;
    past = λ project day lt. w.past project day (omega (arith, day_index_mono clock now le));
  }

  -- The user's check, whatever it answers, drops old times and nothing that still counts.
  check_user-step :
      {s : Limiter} {h : History} (p : Principal) (clock now : ℕ)
      → WriteState s h clock
      → clock ≤ now
      → WriteState (check_user_minute_limit config s p now).1 h now
  unfolding check_user_minute_limit
  check_user-step {s} {h} p clock now w le = elim (Bool-cases (eqb user_writes_per_minute 0)) [
    | inl off ↦ rw off (WriteState-later clock now w le)
    | inr on ↦
        let w' = WriteState-later clock now w le in
        let purged : WriteState
            (record s {
              user_minute_writes =
                  put (user_of p) (purge now (times_of (user_of p) s.user_minute_writes))
                    s.user_minute_writes;
            })
            h now =
          record {
            users = λ _. Tracks-purge (user_of p) now (w.users on) le;
            days = w'.days;
            past = w'.past;
          } in
        elim (Bool-cases (
          leb user_writes_per_minute
            (length (purge now (times_of (user_of p) s.user_minute_writes))))) [
              | inl full ↦ rw (on, full) purged
              | inr room ↦ rw (on, room) purged
            ]
  ]

  record_write-step :
      {s : Limiter} {h : History} (p : Principal) (now : ℕ)
      → WriteState s h now
      → WriteState (record_write config s p now) ((user_of p, now) ∷ h) now
  unfolding record_write written_on
  record_write-step {s} {h} p now w = record {
    users = λ on. rw on (Tracks-append (user_of p) now (w.users on));
    days = λ on. rw on (CountsDays-put p.actor p.project now (w.days on) (w.past p.project));
    past = λ project day lt. ground (arith, w.past project day lt);
  }

  -- The user's decision is that of counting.
  check_user-allowed :
      {s : Limiter} {h : History} (p : Principal) (clock now : ℕ)
      → WriteState s h clock
      → clock ≤ now
      → (check_user_minute_limit config s p now).0 ≡ (
          if eqb user_writes_per_minute 0
          then granted "per-user write rate disabled"
          else if leb user_writes_per_minute (recent now (user_of p) h)
          then refused (user_reason config)
          else granted "per-user write rate within quota")
  unfolding check_user_minute_limit
  check_user-allowed {s} {h} p clock now w le = elim (Bool-cases (eqb user_writes_per_minute 0)) [
    | inl off ↦ rw off
    | inr on ↦ rw (on, (w.users on).counted (user_of p) now le) (ground arith)
  ]

  check_project-allowed :
      {s : Limiter} {h : History} (p : Principal) (now : ℕ)
      → WriteState s h now
      → check_project_day_limit config s p now ≡ (
          if eqb project_writes_per_day 0
          then granted "per-project daily quota disabled"
          else if leb project_writes_per_day (written_on (day_index now) p.project h)
          then refused (project_reason config)
          else granted "per-project daily quota within quota")
  unfolding check_project_day_limit
  check_project-allowed {s} {h} p now w = elim (Bool-cases (eqb project_writes_per_day 0)) [
    | inl off ↦ rw off
    | inr on ↦ rw (on, (w.days on).counted p.project (day_index now) (omega arith)) (ground arith)
  ]

  record WriteStep (s : Limiter) (h : History) (p : Principal) (text : String) (now : ℕ)
      : Type 0 where
    same : (check_and_record config s p text now).0 ≡ (spec_write h p text now).0
    state : WriteState (check_and_record config s p text now).1 (spec_write h p text now).1 now

  check_and_record-step :
      (s : Limiter) (h : History) (p : Principal) (text : String) (clock now : ℕ)
      → WriteState s h clock
      → clock ≤ now
      → WriteStep s h p text now
  unfolding check_and_record spec_write
  check_and_record-step s h p text clock now w le =
      let w' = check_user-step p clock now w le in
      let user = check_user-allowed p clock now w le in
      let project = check_project-allowed p now w' in
      let s' = (check_user_minute_limit config s p now).1 in
      elim (Bool-cases (not (eqb max_save_text_bytes 0) && ltb max_save_text_bytes (len text))) [
        | inl long ↦ record { same = rw long; state = rw long (WriteState-later clock now w le) }
        | inr short ↦ elim (Bool-cases (over_user h p now)) [
          | inl full ↦
              let refusal : (check_user_minute_limit config s p now).0
                  ≡ refused (user_reason config) =
                ground arith in
              record { same = rw (short, full, refusal); state = rw (short, full, refusal) w' }
          | inr room ↦
              let passed : (check_user_minute_limit config s p now).0.allowed ≡ true =
                ground arith in
              elim (Bool-cases (over_project h p now)) [
                | inl spent ↦
                    let refusal : check_project_day_limit config s' p now
                        ≡ refused (project_reason config) =
                      ground arith in
                    record {
                      same = rw (short, room, passed, spent, refusal);
                      state = rw (short, room, passed, spent, refusal) w';
                    }
                | inr left ↦
                    let free : (check_project_day_limit config s' p now).allowed ≡ true =
                      ground arith in
                    record {
                      same = rw (short, room, passed, left, free);
                      state = rw (short, room, passed, left, free) (record_write-step p now w');
                    }
              ]
        ]
      ]

-- A write that is asked for: who asks, the text, and the time.
abbrev pub Ask : Type 0
Ask = Principal × String × ℕ

abbrev pub AskedInOrder : ℕ → List Ask → Type 0
AskedInOrder clock [] = Unit
AskedInOrder clock ((p, text, now) ∷ asks) = (clock ≤ now) × AskedInOrder now asks

module _ (config : MemoryLimitConfig) where
  -- The asks in order of time, each answered by the limiter or by the specification.
  unfoldable pub write_all : Limiter → List Ask → List LimitDecision
  write_all s [] = []
  write_all s ((p, text, now) ∷ asks) =
      let (decision, s') = check_and_record config s p text now in decision ∷ write_all s' asks

  pub spec_write_all : History → List Ask → List LimitDecision
  spec_write_all h [] = []
  spec_write_all h ((p, text, now) ∷ asks) =
      let (decision, h') = spec_write config h p text now in decision ∷ spec_write_all h' asks

  -- The writes that the limiter itself granted, the newest first, behind those of `h`.
  pub granted_writes : Limiter → History → List Ask → History
  granted_writes s h [] = h
  granted_writes s h ((p, text, now) ∷ asks) =
      let (decision, s') = check_and_record config s p text now in
      granted_writes s' (if decision.allowed then (user_of p, now) ∷ h else h) asks

  fresh-WriteState : WriteState config fresh [] 0
  unfolding written_on used_on get
  fresh-WriteState = record {
    users = λ _. Tracks-fresh;
    days = λ _. record { counted = λ project day le. refl };
    past = λ project day lt. refl;
  }

  write_all-eq-spec :
      (asks : List Ask) (s : Limiter) (h : History) (clock : ℕ)
      → WriteState config s h clock
      → AskedInOrder clock asks
      → write_all s asks ≡ spec_write_all h asks
  unfolding write_all spec_write_all
  write_all-eq-spec [] s h clock w o = refl
  write_all-eq-spec ((p, text, now) ∷ asks) s h clock w o =
      let step = check_and_record-step config s h p text clock now w o.0 in
      cc (
        step.same,
        write_all-eq-spec asks (check_and_record config s p text now).1
            (spec_write config h p text now).1 now step.state o.1,
      )

  abbrev WithinQuota : History → Type 0
  WithinQuota h =
      (day : ℕ) (project : String) → written_on day project h ≤ config.project_writes_per_day

  spec_write-log :
      (h : History) (p : Principal) (text : String) (now : ℕ)
      → (spec_write config h p text now).1
        ≡ (if (spec_write config h p text now).0.allowed then (user_of p, now) ∷ h else h)
  unfolding spec_write
  spec_write-log h p text now = ground arith

  spec_write-WithinQuota :
      (h : History) (p : Principal) (text : String) (now : ℕ)
      → 0 < config.project_writes_per_day
      → WithinQuota h
      → WithinQuota (spec_write config h p text now).1
  unfolding spec_write written_on
  spec_write-WithinQuota h p text now on w day project =
      ground (arith, w day project, string_eq.beq_iff p.project project)

  granted_writes-WithinQuota :
      (asks : List Ask) (s : Limiter) (h : History) (clock : ℕ)
      → 0 < config.project_writes_per_day
      → WriteState config s h clock
      → WithinQuota h
      → AskedInOrder clock asks
      → WithinQuota (granted_writes s h asks)
  unfolding granted_writes
  granted_writes-WithinQuota [] s h clock on t w o = w
  granted_writes-WithinQuota ((p, text, now) ∷ asks) s h clock on t w o =
      let step = check_and_record-step config s h p text clock now t o.0 in
      rw (step.same, ← spec_write-log h p text now)
        (granted_writes-WithinQuota asks (check_and_record config s p text now).1
          (spec_write config h p text now).1 now on step.state
          (spec_write-WithinQuota h p text now on w) o.1)

-- From a fresh limiter and a clock that does not run backwards, the limiter answers each write as
-- counting does: refused for a text over the byte limit, for a user whose accepted writes of the
-- last 60 seconds have reached the limit, and for a project whose accepted writes of that day have.
pub write_all-refines :
    (config : MemoryLimitConfig) (asks : List Ask)
    → AskedInOrder 0 asks
    → write_all config fresh asks ≡ spec_write_all config [] asks
write_all-refines config asks o =
    write_all-eq-spec config asks fresh [] 0 (fresh-WriteState config) o

-- From a fresh limiter and a clock that does not run backwards, while a daily quota is set: whatever
-- writes are asked for, on no day has a project more granted writes than its quota.
pub granted_writes-le_quota :
    (config : MemoryLimitConfig) (asks : List Ask) (day : ℕ) (project : String)
    → 0 < config.project_writes_per_day
    → AskedInOrder 0 asks
    → written_on day project (granted_writes config fresh [] asks) ≤ config.project_writes_per_day
granted_writes-le_quota config asks day project on o =
    granted_writes-WithinQuota config asks fresh [] 0 on (fresh-WriteState config)
      (λ _ _. unfold written_on in omega arith) o day project
