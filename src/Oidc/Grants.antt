-- ===== src/Oidc/Grants.antt =====
-- Which project and roles an identity has. Code: `Grant` and `GrantsFile` of
-- mcp_governance_gateway/oidc.py.
pub mod Union
use mcp_governance_gateway.Base.{
  String, Bool, true, ◌&&◌, Option, none, some, List, [], ◌∷◌, ◌++◌, if◌then◌else◌,
}
use mcp_governance_gateway.Base.Dict.{Dict, get, put}
use mcp_governance_gateway.Base.Text.{is_empty, strip}
use mcp_governance_gateway.Base.Eq.{◌==◌, string_eq}
use mcp_governance_gateway.Errors.{value_error, auth_error, attribute_error, Result, ok, err, ◌>>=◌}
use mcp_governance_gateway.Confirm.Sorted.{sorted_set}
use mcp_governance_gateway.Runtime.{Runtime}
use mcp_governance_gateway.Value.{
  Value, null, str, obj, arr, Items, nil, cons, Args, entries, get_value, truthy,
}

pub record Grant : Type 0 where
  pub project : String
  pub issue_project : Option String
  pub roles : List String

-- The grants of subjects and those of groups.
abbrev pub GrantMap : Type 0
GrantMap = Dict String Grant × Dict String Grant

-- tuple(r for r in roles if isinstance(r, str) and r)
unfoldable pub texts_of : Items → List String
texts_of nil = []
texts_of (cons (str s) rest) = let texts = texts_of rest in if is_empty s then texts else s ∷ texts
texts_of (cons _ rest) = texts_of rest

unfoldable pub roles_of : Value → List String
unfolding texts_of
roles_of (arr roles) = texts_of roles
roles_of _ = []

unfoldable pub all_roles : List Grant → List String
all_roles [] = []
all_roles (g ∷ gs) = g.roles ++ all_roles gs

-- The grants that the groups have.
unfoldable pub matching : Dict String Grant → List String → List Grant
unfolding get
matching grants [] = []
matching grants (g ∷ groups) =
    let rest = matching grants groups in
    elim (get g grants) [ none ↦ rest | some grant ↦ grant ∷ rest ]

-- len({g.project for g in matched}) <= 1
unfoldable pub one_project : String → List Grant → Bool
one_project project [] = true
one_project project (g ∷ gs) = (g.project == project) && one_project project gs

-- {g.issue_project for g in matched if g.issue_project}
unfoldable pub issue_projects : List Grant → List String
issue_projects [] = []
issue_projects (g ∷ gs) =
    let rest = issue_projects gs in
    elim g.issue_project [ none ↦ rest | some p ↦ if is_empty p then rest else p ∷ rest ]

abbrev pub all_are : String → List String → Bool
all_are p [] = true
all_are p (q ∷ qs) = (q == p) && all_are p qs

-- The one issue project, where there is one and no other.
unfoldable pub one_issue_project : List String → Result (Option String)
one_issue_project [] = ok none
one_issue_project (p ∷ ps) =
    if all_are p ps then ok (some p) else err (auth_error "ambiguous project grant")

unfoldable pub union_of : List Grant → Result (Option Grant)
unfolding one_project issue_projects one_issue_project sorted_set all_roles ◌>>=◌
union_of [] = ok none
union_of (g ∷ gs) =
    if one_project g.project gs
    then (one_issue_project (issue_projects (g ∷ gs)) >>= λ issue_project. ok (
        some (record {
          project = g.project;
          issue_project = issue_project;
          roles = sorted_set [] (all_roles (g ∷ gs));
        })))
    else err (auth_error "ambiguous project grant")

-- `resolve` of the grants as they are.
unfoldable pub resolve_grant : GrantMap → String → List String → Result (Option Grant)
unfolding get matching union_of
resolve_grant (subjects, group_grants) subject groups = elim (get subject subjects) [
  | some direct ↦ ok (some direct)
  | none ↦ union_of (matching group_grants groups)
]

module _ (rt : Runtime) where
  -- str(issue_project) if issue_project not in (None, "") else None
  unfoldable pub issue_project_of : Value → Option String
  issue_project_of null = none
  issue_project_of (str s) = if is_empty s then none else some s
  issue_project_of v = some (rt.str_of v)

  unfoldable pub grant_with : Args → Value → Option Grant
  unfolding strip roles_of issue_project_of get_value
  grant_with spec (str project) =
      if is_empty (strip project)
      then none
      else some (record {
        project = strip project;
        issue_project = issue_project_of (get_value spec "issue_project");
        roles = roles_of (get_value spec "roles");
      })
  grant_with spec _ = none

  -- `_grant`
  unfoldable pub grant_of : Value → Option Grant
  unfolding grant_with get_value
  grant_of (obj fs) = grant_with (entries fs) (get_value (entries fs) "project")
  grant_of _ = none

  unfoldable pub add_grants : Args → Dict String Grant → Dict String Grant
  unfolding grant_of put
  add_grants [] grants = grants
  add_grants ((key, spec) ∷ more) grants = elim (grant_of spec) [
    | none ↦ add_grants more grants
    | some grant ↦ add_grants more (put key grant grants)
  ]

  -- (data.get(...) or {}).items(), and the loop over it.
  unfoldable pub grants_in : Value → Result (Dict String Grant)
  unfolding add_grants truthy
  grants_in (obj fs) = ok (add_grants (entries fs) [])
  grants_in v = if truthy v then err attribute_error else ok []

  -- `_parse`, of what parsing the file's JSON comes to.
  unfoldable pub parse_grants : Result Value → Result GrantMap
  unfolding grants_in get_value ◌>>=◌
  parse_grants (err e) = err e
  parse_grants (ok (obj fs)) = grants_in (get_value (entries fs) "subjects") >>= λ subjects.
      grants_in (get_value (entries fs) "groups") >>= λ groups. ok (subjects, groups)
  parse_grants (ok _) = err (value_error "grants file must be a JSON object")
