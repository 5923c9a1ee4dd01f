-- ===== src/Limits.antt =====
-- The write and read limits of the memory tools, over an explicit clock.
-- Code: mcp_governance_gateway/limits.py. A time is a number of microseconds since the epoch.
pub mod Window
pub mod Reads
pub mod Writes
mod Tests
use Prim.Native.String.{len}
use mcp_governance_gateway.Base.{
  ℕ, ◌+◌, ◌*◌, ◌/◌, String, ◌<>◌, Bool, true, false, not, ◌&&◌, Option, none, some, List, [], ◌∷◌,
  ◌++◌, length, ltb, leb, eqb, if◌then◌else◌,
}
use mcp_governance_gateway.Base.Eq.{string_eq, pair_eq}
use mcp_governance_gateway.Base.Dict.{Dict, get, put}
use mcp_governance_gateway.Base.Text.{show}
use mcp_governance_gateway.Principal.{Principal}

abbrev pub second : ℕ
second = 1_000_000

pub record LimitDecision : Type 0 where
  pub allowed : Bool
  pub reason : String

abbrev pub granted : String → LimitDecision
granted reason = record { allowed = true; reason = reason }

abbrev pub refused : String → LimitDecision
refused reason = record { allowed = false; reason = reason }

-- A limit that is zero or less is switched off; here 0 stands for all of those.
pub record MemoryLimitConfig : Type 0 where
  pub max_save_text_bytes : ℕ
  pub user_writes_per_minute : ℕ
  pub project_writes_per_day : ℕ
  pub user_reads_per_minute : ℕ

abbrev pub default_config : MemoryLimitConfig
default_config = record {
  max_save_text_bytes = 32_768;
  user_writes_per_minute = 30;
  project_writes_per_day = 5_000;
  user_reads_per_minute = 120;
}

-- A user is the actor in a project.
abbrev pub User : Type 0
User = String × String

abbrev pub user_of : Principal → User
user_of p = (p.actor, p.project)

-- The deques hold the oldest time first.
pub record Limiter : Type 0 where
  pub user_minute_writes : Dict User (List ℕ)
  pub user_minute_reads : Dict User (List ℕ)
  pub project_day_writes : Dict String (ℕ × ℕ)

abbrev pub fresh : Limiter
fresh = record { user_minute_writes = []; user_minute_reads = []; project_day_writes = [] }

-- A `defaultdict(deque)` at a key.
unfoldable pub times_of : User → Dict User (List ℕ) → List ℕ
unfolding get
times_of user d = elim (get user d) [ none ↦ [] | some times ↦ times ]

-- `while times and times[0] <= now - 60: times.popleft()`. The cutoff may lie before the epoch.
unfoldable pub purge : ℕ → List ℕ → List ℕ
purge now [] = []
purge now (t ∷ times) =
    let rest = purge now times in if leb (t + 60 * second) now then rest else t ∷ times

unfoldable pub day_index : ℕ → ℕ
day_index timestamp = timestamp / (86_400 * second)

abbrev pub user_reason : MemoryLimitConfig → String
user_reason config =
    "per-user write rate exceeds "
    <> show config.user_writes_per_minute
    <> " memory.save calls per minute"

abbrev pub project_reason : MemoryLimitConfig → String
project_reason config =
    "per-project daily write quota exceeds "
    <> show config.project_writes_per_day
    <> " memory.save calls"

-- Reading the deque of a user creates it, and its old times are dropped in place.
unfoldable pub check_user_minute_limit :
    MemoryLimitConfig → Limiter → Principal → ℕ → LimitDecision × Limiter
unfolding times_of purge put
check_user_minute_limit config s p now =
    let limit = config.user_writes_per_minute in
    let writes = purge now (times_of (user_of p) s.user_minute_writes) in
    let s' = record s { user_minute_writes = put (user_of p) writes s.user_minute_writes } in
    if eqb limit 0
    then (granted "per-user write rate disabled", s)
    else if leb limit (length writes)
    then (refused (user_reason config), s')
    else (granted "per-user write rate within quota", s')

-- The count that is stored for a project, if it was stored on that day.
unfoldable pub used_on : ℕ → Option (ℕ × ℕ) → ℕ
used_on day none = 0
used_on day (some (stored_day, count)) = if eqb stored_day day then count else 0

unfoldable pub check_project_day_limit : MemoryLimitConfig → Limiter → Principal → ℕ → LimitDecision
unfolding used_on day_index get
check_project_day_limit config s p now =
    let limit = config.project_writes_per_day in
    let used = used_on (day_index now) (get p.project s.project_day_writes) in
    if eqb limit 0
    then granted "per-project daily quota disabled"
    else if leb limit used
    then refused (project_reason config)
    else granted "per-project daily quota within quota"

-- The end of `check_and_record`: what an accepted write leaves behind.
unfoldable pub record_write : MemoryLimitConfig → Limiter → Principal → ℕ → Limiter
unfolding times_of used_on day_index get put
record_write config s p now =
    let user = user_of p in
    let day = day_index now in
    record s {
      user_minute_writes =
          if eqb config.user_writes_per_minute 0
          then s.user_minute_writes
          else put user (times_of user s.user_minute_writes ++ now ∷ []) s.user_minute_writes;
      project_day_writes =
          if eqb config.project_writes_per_day 0
          then s.project_day_writes
          else put p.project (day, used_on day (get p.project s.project_day_writes) + 1)
              s.project_day_writes;
    }

unfoldable pub check_and_record :
    MemoryLimitConfig → Limiter → Principal → String → ℕ → LimitDecision × Limiter
unfolding check_user_minute_limit check_project_day_limit record_write
check_and_record config s p text now =
    if not (eqb config.max_save_text_bytes 0) && ltb config.max_save_text_bytes (len text)
    then (refused ("memory.save text exceeds " <> show config.max_save_text_bytes <> " bytes"), s)
    else let (user_decision, s') = check_user_minute_limit config s p now in
      let project_decision = check_project_day_limit config s' p now in
      if not user_decision.allowed
      then (user_decision, s')
      else if not project_decision.allowed
      then (project_decision, s')
      else (granted "memory write within quota", record_write config s' p now)

unfoldable pub check_read : MemoryLimitConfig → Limiter → Principal → ℕ → LimitDecision × Limiter
unfolding times_of purge put
check_read config s p now =
    let limit = config.user_reads_per_minute in
    let user = user_of p in
    let reads = purge now (times_of user s.user_minute_reads) in
    if eqb limit 0
    then (granted "per-user read rate disabled", s)
    else if leb limit (length reads)
    then (
      refused ("per-user read rate exceeds " <> show limit <> " memory read calls per minute"),
      record s { user_minute_reads = put user reads s.user_minute_reads },
    )
    else (
      granted "per-user read rate within quota",
      record s { user_minute_reads = put user (reads ++ now ∷ []) s.user_minute_reads },
    )
