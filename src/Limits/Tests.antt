-- ===== src/Limits/Tests.antt =====
-- The limiter at concrete calls.
use mcp_governance_gateway.Base.{
  ℕ, ◌≡◌, ◌≤◌, ◌*◌, refl, true, false, none, List, [], ◌∷◌, map, arith,
}
use mcp_governance_gateway.Base.Dict.{put, get}
use mcp_governance_gateway.Principal.{Principal}
use mcp_governance_gateway.Limits.{
  second, MemoryLimitConfig, LimitDecision, fresh, user_of, check_and_record, check_read, purge,
  check_user_minute_limit, check_project_day_limit, record_write, used_on, day_index, times_of,
}
use mcp_governance_gateway.Limits.Window.{recent}
use mcp_governance_gateway.Limits.Reads.{
  InOrder, read_all, spec_all, granted_reads, last_time, read_all-refines, granted_reads-le_limit,
}
use mcp_governance_gateway.Limits.Writes.{
  Ask, AskedInOrder, write_all, spec_write_all, granted_writes, written_on, write_all-refines,
  granted_writes-le_quota,
}

abbrev ann : Principal
ann = record {
  actor = "ann";
  project = "p";
  roles = [];
  token_id = "t1";
  issue_project = none;
  email = none;
}

-- Two reads and two writes each minute, three writes each day.
abbrev tight : MemoryLimitConfig
tight = record {
  max_save_text_bytes = 8;
  user_writes_per_minute = 2;
  project_writes_per_day = 3;
  user_reads_per_minute = 2;
}

-- The third read comes too early, the fourth when the first two are a minute old.
abbrev reads : List (Principal × ℕ)
reads = (ann, 0) ∷ (ann, second) ∷ (ann, 59 * second) ∷ (ann, 61 * second) ∷ []

-- The second text is too long, the fourth write too early, the last over the quota of the day.
abbrev writes : List Ask
writes =
    (ann, "a", 0)
    ∷ (ann, "a long text", 0)
    ∷ (ann, "b", second)
    ∷ (ann, "c", 2 * second)
    ∷ (ann, "d", 90 * second)
    ∷ (ann, "e", 200 * second)
    ∷ []

read_answers :
    map (λ (d : LimitDecision). d.allowed) (read_all tight fresh reads)
    ≡ true ∷ true ∷ false ∷ true ∷ []
unfolding read_all check_read purge times_of put get
read_answers = refl

write_answers :
    map (λ (d : LimitDecision). d.allowed) (write_all tight fresh writes)
    ≡ true ∷ false ∷ true ∷ false ∷ true ∷ false ∷ []
unfolding write_all check_and_record check_user_minute_limit check_project_day_limit record_write
    used_on day_index purge times_of put get
write_answers = refl

reads-InOrder : InOrder 0 reads
reads-InOrder = ground arith

writes-AskedInOrder : AskedInOrder 0 writes
writes-AskedInOrder = ground arith

read_all-refines_example : read_all tight fresh reads ≡ spec_all tight [] reads
read_all-refines_example = read_all-refines tight reads reads-InOrder

granted_reads-le_limit_example :
    recent (62 * second) (user_of ann) (granted_reads tight fresh [] reads)
    ≤ tight.user_reads_per_minute
unfolding last_time
granted_reads-le_limit_example =
    granted_reads-le_limit tight reads (user_of ann) (62 * second) (omega arith) reads-InOrder
      (omega arith)

write_all-refines_example : write_all tight fresh writes ≡ spec_write_all tight [] writes
write_all-refines_example = write_all-refines tight writes writes-AskedInOrder

granted_writes-le_quota_example :
    written_on 0 "p" (granted_writes tight fresh [] writes) ≤ tight.project_writes_per_day
granted_writes-le_quota_example =
    granted_writes-le_quota tight writes 0 "p" (omega arith) writes-AskedInOrder
