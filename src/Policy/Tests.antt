-- ===== src/Policy/Tests.antt =====
-- The policy at concrete callers.
use mcp_governance_gateway.Base.{◌≡◌, refl, ◌↔◌, true, none, some, [], ◌∷◌, All}
use mcp_governance_gateway.Base.Dict.{get, put}
use mcp_governance_gateway.Errors.{ok, is_ok}
use mcp_governance_gateway.Principal.{Principal}
use mcp_governance_gateway.Tools.Spec.{Feature}
use mcp_governance_gateway.Tools.Registry.{specs_by_name, visible_tools}
use mcp_governance_gateway.Policy.{decide, allowed}
use mcp_governance_gateway.Policy.Decision.{Allows, Grants, decide-Allows_iff}
use mcp_governance_gateway.Policy.Discovery.{visible_tools-Allows, decide-returns}

-- A reader with a tracker project and the role of the issue tools that write.
abbrev ann : Principal
ann = record {
  actor = "ann";
  project = "p";
  roles = "issue_writer" ∷ [];
  token_id = "t1";
  issue_project = some "demo";
  email = none;
}

abbrev bob : Principal
bob = record {
  actor = "bob";
  project = "p";
  roles = [];
  token_id = "t2";
  issue_project = none;
  email = none;
}

create_allowed : Allows (decide specs_by_name "issues.create" ann)
unfolding decide specs_by_name get put allowed
create_allowed = refl

create_denied :
    decide specs_by_name "issues.create" bob
    ≡ ok (record { decision = "deny"; reason = "token has no issue project" })
unfolding decide specs_by_name get put
create_denied = refl

decide-Allows_iff_example :
    Allows (decide specs_by_name "issues.create" ann) ↔ Grants specs_by_name "issues.create" ann
decide-Allows_iff_example = decide-Allows_iff specs_by_name "issues.create" ann

visible_tools-Allows_example :
    All
      (λ spec. Allows (decide specs_by_name spec.name ann))
      (visible_tools ann (Feature.issues ∷ []))
visible_tools-Allows_example = visible_tools-Allows ann (Feature.issues ∷ []) refl

decide-returns_example : is_ok (decide specs_by_name "issues.create" bob) ≡ true
decide-returns_example = decide-returns "issues.create" bob
