-- ===== src/Oidc/Tests.antt =====
-- A provider's token at a concrete gateway: Ann is in a group that has a grant.
use mcp_governance_gateway.Base.{
  ℕ, String, ◌≡◌, refl, ◌⊎◌, false, none, some, List, [], ◌∷◌, if◌then◌else◌,
}
use mcp_governance_gateway.Base.Int.{pos}
use mcp_governance_gateway.Base.Dict.{get}
use mcp_governance_gateway.Base.Eq.{◌==◌, string_eq, nat_eq, pair_eq, option_eq, list_eq}
use mcp_governance_gateway.Base.Text.{split, all_codes, codes}
use mcp_governance_gateway.Errors.{ok, err, value_error, auth_error}
use mcp_governance_gateway.Confirm.Sorted.{insert, sorted_set}
use mcp_governance_gateway.Principal.{Principal}
use mcp_governance_gateway.Value.{str, arr, int, fraction, nil, cons, Args, get_value}
use mcp_governance_gateway.Gateway.Tests.{plain}
use mcp_governance_gateway.Oidc.Grants.{
  Grant, GrantMap, all_roles, matching, one_project, issue_projects, one_issue_project, union_of,
  resolve_grant,
}
use mcp_governance_gateway.Oidc.Grants.Union.{IsUnion, resolve_grant-IsUnion}
use mcp_governance_gateway.Oidc.Times.{finite_number, later, plus, with_skew, float_of}
use mcp_governance_gateway.Oidc.{
  is_due, get_signing_key, fetch_keys, segments, OidcConfig, audiences, check_claims, Arrival,
  OidcState, opened, verified, settled, authenticate_at, authenticate,
}
use mcp_governance_gateway.Oidc.Fetches.{Lookup, look_up, Spaced, fetches-Spaced}

abbrev pub grant : List String → Grant
grant roles = record { project = "p"; issue_project = none; roles = roles }

abbrev pub grants : GrantMap
grants =
    ([], ("team", grant ("reader" ∷ [])) ∷ ("leads", grant ("issue_writer" ∷ "reader" ∷ [])) ∷ [])

abbrev both : Grant
both = grant ("issue_writer" ∷ "reader" ∷ [])

both_found : resolve_grant grants "ann" ("team" ∷ "leads" ∷ []) ≡ ok (some both)
unfolding resolve_grant union_of matching one_project issue_projects one_issue_project sorted_set
    insert all_roles get
both_found = refl

resolve_grant-IsUnion_example :
    (get "ann" grants.0 ≡ some both) ⊎ IsUnion (matching grants.1 ("team" ∷ "leads" ∷ [])) both
resolve_grant-IsUnion_example =
    resolve_grant-IsUnion grants "ann" ("team" ∷ "leads" ∷ []) both both_found

abbrev pub claims : Args
claims =
    ("iss", str "https://id")
    ∷ ("aud", str "gateway")
    ∷ ("exp", int (pos 9))
    ∷ ("sub", str "ann")
    ∷ ("groups", arr (cons (str "team") nil))
    ∷ []

abbrev pub config : OidcConfig
config = record {
  issuer = "https://id";
  audience = "gateway";
  groups_claim = "groups";
  required_scope = none;
}

abbrev pub arrival : Arrival String
arrival = record {
  clock = record { now = fraction (pos 19) 1; skew = fraction (pos 1) 0; rounded = λ x. x };
  fetched = ok (("k1", "key") ∷ []);
  now = 100;
  after = 101;
  file = record {
    seen = [];
    locked = [];
    parsed = λ previous. err (value_error "unchanged");
    now = 100;
  };
  decode = λ segment what. if segment == "h" then ok (("alg", str "RS256") ∷ []) else ok claims;
  check_signature = λ alg key input signature. ok tt;
}

abbrev pub state : OidcState String
state = record {
  jwks = record { keys = []; fetched_at = 0; last_attempt = 0; fetches = [] };
  grants = record { value = grants; sig = some []; stale = false; last_complaint = 0; warned = [] };
}

abbrev ann : Principal
ann = record {
  actor = "ann";
  project = "p";
  roles = "reader" ∷ [];
  token_id = "https://id|a";
  issue_project = none;
  email = none;
}

-- One more second later the same token is refused.
abbrev too_late : Arrival String
too_late = record arrival { clock = record arrival.clock { now = fraction (pos 21) 1 } }

ann_refused :
    (authenticate plain config 60 10 too_late "h.p.s" state).0
    ≡ err (auth_error "token has expired")
unfolding authenticate authenticate_at opened segments split all_codes codes get_signing_key
    fetch_keys is_due get verified check_claims get_value audiences finite_number later plus
    with_skew float_of settled
ann_refused = refl

abbrev unknown_kid : ℕ → Lookup String
unknown_kid time = record {
  kid = some "k9";
  fetched = err (value_error "no keys");
  now = time;
  after = time;
}

abbrev lookups : List (Lookup String)
lookups = unknown_kid 100 ∷ unknown_kid 105 ∷ unknown_kid 120 ∷ []

fetches-Spaced_example : Spaced 10 (look_up 60 10 lookups state.jwks).fetches
fetches-Spaced_example = fetches-Spaced 60 10 lookups state.jwks tt
