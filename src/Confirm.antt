-- ===== src/Confirm.antt =====
-- Pending confirmations of writes. Code: mcp_governance_gateway/confirm.py.
-- The lock makes each call of `issue` and `verify` one step; the clock's reading and the nonce that
-- `secrets` draws are arguments of the step.
pub mod Sorted
pub mod Index
pub mod Invariant
pub mod Bounds
pub mod Runs
pub mod Verdicts
pub mod Binding
pub mod Isolation
mod Tests
use mcp_governance_gateway.Base.{
  ℕ, ◌+◌, ◌*◌, String, ◌<>◌, Bool, true, false, not, Option, none, some, List, [], ◌∷◌, ◌++◌,
  length, ltb, leb, if◌then◌else◌,
}
use mcp_governance_gateway.Base.Eq.{◌==◌, string_eq}
use mcp_governance_gateway.Base.Dict.{Dict, keys, get, put, remove}
use mcp_governance_gateway.Base.Text.{is_empty, join, take, show}
use mcp_governance_gateway.Errors.{value_error, Result, ok, err}
use mcp_governance_gateway.Principal.{Principal, or_empty}
use mcp_governance_gateway.Runtime.{Runtime}
use mcp_governance_gateway.Limits.{second}
use mcp_governance_gateway.Value.{Value, null, bool, int, float, str, arr, obj, Args, dict}
use mcp_governance_gateway.Confirm.Sorted.{sorted_union}

pub record Config : Type 0 where
  pub ttl_sec : ℕ
  pub max_entries : ℕ
  pub max_per_principal : ℕ

abbrev pub default_config : Config
default_config = record { ttl_sec = 300; max_entries = 10_000; max_per_principal = 64 }

pub record Entry : Type 0 where
  pub identity_key : String
  pub action_key : String
  pub confirmed_fields : Dict String String
  pub expiry : ℕ
  pub owner : String

-- `pending` maps a nonce to its entry; `owned` maps an owner to its pending nonces, oldest first.
pub record Store : Type 0 where
  pub pending : Dict String Entry
  pub owned : Dict String (List String)

abbrev pub empty : Store
empty = record { pending = []; owned = [] }

-- The unit separator "\x1f".
abbrev pub separator : String
separator = "\u{1f}"

abbrev pub owner_parts : Principal → List String
owner_parts p = p.actor ∷ p.project ∷ p.token_id ∷ or_empty p.issue_project ∷ []

-- type(value).__name__
unfoldable pub type_name : Value → String
type_name null = "NoneType"
type_name (bool b) = "bool"
type_name (int n) = "int"
type_name (float x) = "float"
type_name (str s) = "str"
type_name (arr vs) = "list"
type_name (obj fs) = "dict"

module _ (rt : Runtime) where
  unfoldable pub owner_key : Principal → String
  owner_key p = rt.sha256 (join separator (owner_parts p))

  unfoldable pub identity_key : Principal → String → String
  identity_key p tool = rt.sha256 (join separator (owner_parts p ++ tool ∷ []))

  unfoldable pub action_key : Principal → String → Args → String
  action_key p tool args =
      rt.sha256 (join separator (owner_parts p ++ tool ∷ rt.dumps (dict args) ∷ []))

  unfoldable pub field_digest : Value → String
  unfolding type_name
  field_digest (str s) = take 8 (rt.sha256 s)
  field_digest value = take 8 (rt.sha256 (type_name value <> ":" <> rt.dumps value))

  unfoldable pub field_digests : Args → Dict String String
  unfolding field_digest
  field_digests [] = []
  field_digests ((key, value) ∷ args) = (key, field_digest value) ∷ field_digests args

-- OrderedDict.pop(nonce, None)
unfoldable pub without : String → List String → List String
without n [] = []
without n (m ∷ ms) = let rest = without n ms in if m == n then rest else m ∷ rest

-- self._owned.get(owner), as a list that is empty where there is none.
unfoldable pub owned_of : String → Dict String (List String) → List String
unfolding get
owned_of owner d = elim (get owner d) [ none ↦ [] | some nonces ↦ nonces ]

-- What `_drop` leaves of an owner's nonces: no entry where none is left.
unfoldable pub store_owned :
    String → List String → Dict String (List String) → Dict String (List String)
store_owned owner [] d = remove owner d
store_owned owner (n ∷ ns) d = put owner (n ∷ ns) d

unfoldable pub drop_owned : String → String → Dict String (List String) → Dict String (List String)
unfolding get without store_owned
drop_owned nonce owner d = elim (get owner d) [
  | none ↦ d
  | some nonces ↦ store_owned owner (without nonce nonces) d
]

unfoldable pub drop : String → Store → Store
unfolding get drop_owned
drop nonce s = elim (get nonce s.pending) [
  | none ↦ s
  | some entry ↦ record {
    pending = remove nonce s.pending;
    owned = drop_owned nonce entry.owner s.owned;
  }
]

unfoldable pub drop_all : List String → Store → Store
unfolding drop
drop_all [] s = s
drop_all (nonce ∷ nonces) s = drop_all nonces (drop nonce s)

-- [n for n, entry in pending.items() if entry.expiry <= now]
unfoldable pub expired : ℕ → Dict String Entry → List String
expired now [] = []
expired now ((n, entry) ∷ d) =
    let rest = expired now d in if leb entry.expiry now then n ∷ rest else rest

unfoldable pub prune : ℕ → Store → Store
unfolding drop_all expired
prune now s = drop_all (expired now s.pending) s

-- min(pending, key=expiry), the first of the earliest, behind the candidate read so far.
unfoldable pub earliest_from : String → ℕ → Dict String Entry → String
earliest_from best expiry [] = best
earliest_from best expiry ((n, entry) ∷ d) =
    let earlier = ltb entry.expiry expiry in
    earliest_from (if earlier then n else best) (if earlier then entry.expiry else expiry) d

-- `next(iter(owned))` of a principal at its cap. The constructor refuses a cap of 0, so the list is
-- not empty there.
unfoldable pub drop_first : List String → Store → Store
unfolding drop
drop_first [] s = s
drop_first (oldest ∷ rest) s = drop oldest s

unfoldable pub evict_own : Config → String → Store → Store
unfolding owned_of drop_first
evict_own config owner s =
    let owned = owned_of owner s.owned in
    if leb config.max_per_principal (length owned) then drop_first owned s else s

-- `min` of no entries raises; that is so only for a store that may hold none.
unfoldable pub evict_earliest : Dict String Entry → Store → Result Store
unfolding drop earliest_from
evict_earliest [] s = err (value_error "min() iterable argument is empty")
evict_earliest ((n, entry) ∷ d) s = ok (drop (earliest_from n entry.expiry d) s)

unfoldable pub evict_total : Config → Store → Result Store
unfolding evict_earliest
evict_total config s =
    if leb config.max_entries (length s.pending) then evict_earliest s.pending s else ok s

unfoldable pub add : String → Entry → Store → Store
unfolding owned_of
add nonce entry s = record {
  pending = put nonce entry s.pending;
  owned = put entry.owner (owned_of entry.owner s.owned ++ nonce ∷ []) s.owned;
}

abbrev pub Verdict : Type 0
Verdict = Bool × Option String

abbrev pub unknown : Verdict
unknown = (false, some "unknown or already-used confirmationId")

abbrev pub malformed : Verdict
malformed = (
  false,
  some
      "confirm was supplied but is empty or not a string — it must be the exact confirmationId string returned by the previous call",
)

unfoldable pub digest_or_absent : Option String → String
digest_or_absent none = "absent"
digest_or_absent (some digest) = digest

unfoldable pub same_digest : Option String → Option String → Bool
same_digest none none = true
same_digest (some a) (some b) = a == b
same_digest _ _ = false

unfoldable pub changed_from : List String → Dict String String → Dict String String → List String
unfolding get same_digest digest_or_absent
changed_from [] confirmed now_fields = []
changed_from (k ∷ ks) confirmed now_fields =
    let rest = changed_from ks confirmed now_fields in
    let was = get k confirmed in
    let got = get k now_fields in
    if same_digest was got
    then rest
    else (k <> " (confirmed " <> digest_or_absent was <> ", got " <> digest_or_absent got <> ")")
      ∷ rest

unfoldable pub changed_reason : Dict String String → Dict String String → String
unfolding changed_from
changed_reason confirmed now_fields =
    "confirmationId is valid but these arguments changed since it was issued: "
    <> join ", "
        (changed_from (sorted_union (keys confirmed) (keys now_fields)) confirmed now_fields)
    <> ". Resend the ORIGINAL values byte-for-byte — not a regenerated or reformatted copy, and not the truncated echo. Equal length with a different digest means the text was altered character-for-character (typographic quotes, dashes, non-breaking spaces): diff your two payloads rather than retrying the same way."

module _ (rt : Runtime) (config : Config) where
  unfoldable pub new_entry : Principal → String → Args → ℕ → Entry
  unfolding identity_key action_key field_digests owner_key
  new_entry p tool args now = record {
    identity_key = identity_key rt p tool;
    action_key = action_key rt p tool args;
    confirmed_fields = field_digests rt args;
    expiry = now + config.ttl_sec * second;
    owner = owner_key rt p;
  }

  -- The store as the pruning and the principal's own eviction leave it.
  unfoldable pub make_room : Principal → ℕ → Store → Store
  unfolding prune evict_own owner_key
  make_room p now s = evict_own config (owner_key rt p) (prune now s)

  -- The nonce, and the store that is left also where `min` raises.
  unfoldable pub issue : Principal → String → Args → ℕ → String → Store → Result String × Store
  unfolding make_room evict_total add new_entry
  issue p tool args now nonce s =
      let s' = make_room p now s in
      elim (evict_total config s') [
        | err e ↦ (err e, s')
        | ok roomy ↦ (ok nonce, add nonce (new_entry p tool args now) roomy)
      ]

  unfoldable pub expired_reason : String
  expired_reason =
      "confirmationId expired (" <> show config.ttl_sec <> "s TTL) — start over with a fresh call"

  -- `verify` with an entry under the nonce.
  unfoldable pub verify_entry :
      Principal → String → Args → String → Entry → ℕ → Store → Verdict × Store
  unfolding identity_key action_key drop
  verify_entry p tool args nonce entry now s =
      if not (entry.identity_key == identity_key rt p tool)
      then (unknown, s)
      else if leb entry.expiry now
      then ((false, some expired_reason), drop nonce s)
      else if not (entry.action_key == action_key rt p tool args)
      then ((false, some (changed_reason entry.confirmed_fields (field_digests rt args))), s)
      else ((true, none), drop nonce s)

  unfoldable pub verify_nonce : Principal → String → Args → String → ℕ → Store → Verdict × Store
  unfolding get verify_entry
  verify_nonce p tool args nonce now s = elim (get nonce s.pending) [
    | none ↦ (unknown, s)
    | some entry ↦ verify_entry p tool args nonce entry now s
  ]

  unfoldable pub verify : Principal → String → Args → Value → ℕ → Store → Verdict × Store
  unfolding verify_nonce
  verify p tool args null now s = ((false, none), s)
  verify p tool args (str nonce) now s =
      if is_empty nonce then (malformed, s) else verify_nonce p tool args nonce now s
  verify p tool args _ now s = (malformed, s)
