-- ===== src/Auth/Files.antt =====
-- The token files. Code: `_load_token_claims`, `_merge_sources` and `_reload_claims` of
-- mcp_governance_gateway/auth.py.
use mcp_governance_gateway.Base.{
  String, ◌<>◌, Bool, Option, none, some, List, [], ◌∷◌, if◌then◌else◌,
}
use mcp_governance_gateway.Base.Dict.{Dict, get, put, update}
use mcp_governance_gateway.Base.Text.{is_empty, strip, take}
use mcp_governance_gateway.Base.Eq.{string_eq}
use mcp_governance_gateway.Errors.{value_error, attribute_error, Result, ok, err, ◌>>=◌}
use mcp_governance_gateway.Principal.{Principal}
use mcp_governance_gateway.Runtime.{Runtime}
use mcp_governance_gateway.Value.{
  Value, null, str, obj, arr, bool, int, Items, nil, cons, Args, entries, get_value,
}

-- token -> Principal
abbrev pub Claims : Type 0
Claims = Dict String Principal

-- A token file: `none` for one that is not there, else what parsing its JSON comes to.
pub record Source : Type 0 where
  pub path : String
  pub required : Bool
  pub content : Option (Result Value)

-- Roles that are texts, all of them.
unfoldable pub roles_in : Items → Result (List String)
unfolding ◌>>=◌
roles_in nil = ok []
roles_in (cons (str role) rest) = roles_in rest >>= λ roles. ok (role ∷ roles)
roles_in (cons _ rest) = err (value_error "token roles must be a list of strings")

unfoldable pub roles_of : Option Value → Result (List String)
unfolding roles_in
roles_of none = ok []
roles_of (some (arr roles)) = roles_in roles
roles_of (some _) = err (value_error "token roles must be a list of strings")

-- The present email's text, stripped, where there is any.
unfoldable pub email_of : Value → Option String
unfolding strip
email_of (str email) = let own = strip email in if is_empty own then none else some own
email_of _ = none

unfoldable pub required_str : Args → String → Result String
unfolding get_value strip
required_str entry key = elim (get_value entry key) [
  | str value ↦
      if is_empty (strip value)
      then err (value_error ("token entry field '" <> key <> "' must be a non-empty string"))
      else ok value
  | _ ↦ err (value_error ("token entry field '" <> key <> "' must be a non-empty string"))
]

abbrev pub non_empty : Claims → Result Claims
non_empty [] = err (value_error "no tokens loaded from any source")
non_empty (c ∷ claims) = ok (c ∷ claims)

module _ (rt : Runtime) where
  unfoldable pub token_id : String → String
  unfolding take
  token_id token = take 12 (rt.sha256 token)

  unfoldable pub issue_project_of : Value → Result (Option String)
  issue_project_of null = ok none
  issue_project_of (str s) = ok (some s)
  issue_project_of (int n) = ok (some (rt.str_of (int n)))
  issue_project_of (bool b) = ok (some (rt.str_of (bool b)))
  issue_project_of _ = err (value_error "token issue_project must be a string or integer")

  -- entry.get("issue_project", entry.get("redmine_project"))
  unfoldable pub issue_project_in : Args → Result (Option String)
  unfolding get get_value issue_project_of
  issue_project_in entry = elim (get "issue_project" entry) [
    | some raw ↦ issue_project_of raw
    | none ↦ issue_project_of (get_value entry "redmine_project")
  ]

  -- One entry of the file, with its token.
  unfoldable pub entry_of : Value → Result (String × Principal)
  unfolding required_str roles_of issue_project_in email_of token_id get get_value ◌>>=◌
  entry_of (obj fs) =
      let entry = entries fs in
      required_str entry "token" >>= λ token. required_str entry "actor" >>= λ actor.
      required_str entry "project" >>= λ project. roles_of (get "roles" entry) >>= λ roles.
      issue_project_in entry >>= λ issue_project. ok (
        token,
        record {
          actor = actor;
          project = project;
          roles = roles;
          token_id = token_id token;
          issue_project = issue_project;
          email = email_of (get_value entry "email");
        },
      )
  entry_of _ = err (value_error "token entries must be objects")

  unfoldable pub add_entries : Items → Claims → Result Claims
  unfolding entry_of put ◌>>=◌
  add_entries nil claims = ok claims
  add_entries (cons v rest) claims =
      entry_of v >>= λ entry. add_entries rest (put entry.0 entry.1 claims)

  -- The parsed file.
  unfoldable pub claims_in : Bool → Value → Result Claims
  unfolding add_entries get_value
  claims_in required (obj fs) = elim (get_value (entries fs) "tokens") [
    | arr nil ↦
        if required
        then err (value_error "token file must contain a non-empty 'tokens' list")
        else ok []
    | arr tokens ↦ add_entries tokens []
    | _ ↦ if required then err (value_error "token file must contain a 'tokens' list") else ok []
  ]
  claims_in required _ = err attribute_error

  unfoldable pub load_token_claims : Source → Result Claims
  unfolding claims_in ◌>>=◌
  load_token_claims s = elim s.content [
    | none ↦ if s.required then err (value_error ("token file not found: " <> s.path)) else ok []
    | some read ↦ read >>= λ parsed. claims_in s.required parsed
  ]

  -- The files in their order: a later one's entry for a token replaces an earlier one's.
  unfoldable pub merge_into : List Source → Claims → Result Claims
  unfolding load_token_claims update ◌>>=◌
  merge_into [] merged = ok merged
  merge_into (s ∷ more) merged =
      load_token_claims s >>= λ claims. merge_into more (update merged claims)

  unfoldable pub merge_sources : List Source → Result Claims
  unfolding merge_into
  merge_sources sources = merge_into sources []

  unfoldable pub reload_claims : Bool → List Source → Result Claims
  unfolding merge_sources ◌>>=◌
  reload_claims allow_empty sources =
      if allow_empty then merge_sources sources else merge_sources sources >>= non_empty
