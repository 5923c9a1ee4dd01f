-- ===== src/Policy.antt =====
-- Allow or deny: the decision on each call. Code: mcp_governance_gateway/policy.py.
pub mod Decision
pub mod Discovery
mod Tests
use mcp_governance_gateway.Base.{
  String, ◌<>◌, Bool, false, not, ◌&&◌, Option, none, some, List, [], ◌∷◌, if◌then◌else◌,
}
use mcp_governance_gateway.Base.Text.{is_empty, last_part}
use mcp_governance_gateway.Base.Eq.{string_eq, ◌==◌, contains}
use mcp_governance_gateway.Base.Dict.{Dict, get}
use mcp_governance_gateway.Errors.{key_error, Result, ok, err}
use mcp_governance_gateway.Principal.{Principal, or_empty}
use mcp_governance_gateway.Tools.Spec.{
  Family, Access, ToolSpec, family_eq, issue_writer, docs_writer, docs_reviewer, ci_runner,
}

abbrev pub destructive_suffixes : List String
destructive_suffixes = "delete" ∷ "destroy" ∷ "purge" ∷ "remove" ∷ []

-- _ALLOW_REASON; `none` for a key that is not there.
unfoldable pub allow_reason : Family → Access → Option String
allow_reason Family.memory Access.read = some "phase1 memory tool"
allow_reason Family.memory Access.write = some "phase1 memory tool"
allow_reason Family.issues Access.read = some "phase1 issue read"
allow_reason Family.issues Access.write = some "phase1 issue write"
allow_reason Family.docs Access.read = some "docs read"
allow_reason Family.docs Access.write = some "docs propose"
allow_reason Family.docs Access.review = some "docs review comment"
allow_reason Family.ci Access.read = some "ci read"
allow_reason Family.ci Access.write = some "ci run"
allow_reason _ _ = none

-- _MISSING_ROLE_REASON, with the default of its `get`.
unfoldable pub missing_role_reason : String → String
missing_role_reason role =
    if role == issue_writer
    then "token lacks issue write role"
    else if role == docs_writer
    then "token lacks docs write role"
    else if role == docs_reviewer
    then "token lacks docs review role"
    else if role == ci_runner
    then "token lacks ci run role"
    else "token lacks the " <> role <> " role"

pub record PolicyDecision : Type 0 where
  pub decision : String
  pub reason : String

abbrev pub deny : String → PolicyDecision
deny reason = record { decision = "deny"; reason = reason }

unfoldable pub allowed : PolicyDecision → Bool
allowed d = d.decision == "allow"

-- The end of `decide`: the reason of an allowed call is looked up, and a missing one is a KeyError.
unfoldable pub allow : ToolSpec → Result PolicyDecision
unfolding allow_reason
allow spec = elim (allow_reason spec.family spec.access) [
  | none ↦ err key_error
  | some reason ↦ ok (record { decision = "allow"; reason = reason })
]

unfoldable pub is_destructive : String → Bool
unfolding last_part
is_destructive tool_name = contains (last_part b'.' tool_name) destructive_suffixes

abbrev pub role_of : ToolSpec → String
role_of spec = elim spec.role [ none ↦ "" | some role ↦ role ]

-- `spec.family == ISSUES and not principal.issue_project`
unfoldable pub misses_tracker : ToolSpec → Principal → Bool
misses_tracker spec p = family_eq spec.family Family.issues && is_empty (or_empty p.issue_project)

-- `spec.role is not None and spec.role not in principal.roles`
unfoldable pub misses_role : ToolSpec → Principal → Bool
misses_role spec p = elim spec.role [ none ↦ false | some role ↦ not (contains role p.roles) ]

-- `decide` from where the spec is found.
unfoldable pub decide_spec : ToolSpec → Principal → Result PolicyDecision
unfolding allow misses_role misses_tracker missing_role_reason
decide_spec spec p =
    if misses_tracker spec p
    then ok (deny "token has no issue project")
    else if misses_role spec p
    then ok (deny (missing_role_reason (role_of spec)))
    else allow spec

unfoldable pub decide : Dict String ToolSpec → String → Principal → Result PolicyDecision
unfolding is_destructive get decide_spec
decide specs tool_name p =
    if is_empty p.project
    then ok (deny "missing project")
    else if is_destructive tool_name
    then ok (deny "destructive operations are denied")
    else elim (get tool_name specs) [
      | none ↦ ok (deny "tool is not allowed in phase1")
      | some spec ↦ decide_spec spec p
    ]
