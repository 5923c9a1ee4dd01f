-- ===== src/Hotfile.antt =====
-- Values that follow files on disk. Code: `ReloadingFile` of mcp_governance_gateway/hotfile.py.
-- What an access finds on disk is an argument of it: the signatures that it reads before and under
-- the lock, what parsing comes to, and the clock. The lock makes a reload one step.
pub mod Follows
mod Tests
use mcp_governance_gateway.Base.{
  ℕ, ◌+◌, ◌*◌, Bool, true, false, not, ◌||◌, Option, none, some, List, [], ◌∷◌, ltb, if◌then◌else◌,
}
use mcp_governance_gateway.Base.Eq.{◌==◌, nat_eq, pair_eq, string_eq, option_eq, list_eq}
use mcp_governance_gateway.Errors.{Error, Result, ok, err}
use mcp_governance_gateway.Limits.{second}

-- (st_mtime_ns, st_size, st_ino) of a file, or `none` for one that cannot be stat'd.
abbrev pub FileSignature : Type 0
FileSignature = Option (ℕ × (ℕ × ℕ))

-- One of each path.
abbrev pub Signature : Type 0
Signature = List FileSignature

-- `sig` is `none` for `_UNSET`; `warned` holds the logged failures, the newest first.
pub record Reloading (T : Type 0) : Type 0 where
  pub value : T
  pub sig : Option Signature
  pub stale : Bool
  pub last_complaint : ℕ
  pub warned : List Error

pub record Access (T : Type 0) : Type 0 where
  pub seen : Signature
  pub locked : Signature
  pub parsed : T → Result T
  pub now : ℕ

abbrev pub complain_every : ℕ
complain_every = 30 * second

module _ {T : Type 0} where
  -- The constructor without `load_now`; no paths make the value static.
  unfoldable pub start : Bool → T → Reloading T
  start has_paths initial = record {
    value = initial;
    sig = if has_paths then none else some [];
    stale = false;
    last_complaint = 0;
    warned = [];
  }

  -- The constructor with `load_now`: a failure of the parser is one of the constructor.
  unfoldable pub load : T → Access T → Result (Reloading T)
  load initial a = elim (a.parsed initial) [
    | err e ↦ err e
    | ok value ↦ ok (record {
      value = value;
      sig = some a.seen;
      stale = false;
      last_complaint = 0;
      warned = [];
    })
  ]

  -- What a failed parse leaves.
  unfoldable pub keep_last_good : Bool → Access T → Error → Reloading T → Reloading T
  keep_last_good retry_failed a e s =
      let loud = ltb (s.last_complaint + complain_every) a.now in
      record s {
        sig = if retry_failed then s.sig else some a.locked;
        stale = true;
        last_complaint = if loud then a.now else s.last_complaint;
        warned = if loud then e ∷ s.warned else s.warned;
      }

  unfoldable pub reload : Bool → Access T → Reloading T → Reloading T
  unfolding keep_last_good
  reload retry_failed a s = elim (a.parsed s.value) [
    | err e ↦ keep_last_good retry_failed a e s
    | ok value ↦ record s { value = value; sig = some a.locked; stale = false }
  ]

  unfoldable pub refresh : Bool → Bool → Access T → Reloading T → Reloading T
  unfolding reload
  refresh has_paths retry_failed a s =
      if not has_paths || (some a.seen == s.sig)
      then s
      else if some a.locked == s.sig
      then s
      else reload retry_failed a s

  unfoldable pub publish : T → Signature → Reloading T → Reloading T
  publish value signature s = record s { value = value; sig = some signature; stale = false }
