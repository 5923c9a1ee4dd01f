-- ===== src/Principal.antt =====
-- Who calls. Code: `Principal` of mcp_governance_gateway/auth.py, `RequestContext` of
-- mcp_governance_gateway/memory_backend.py, mcp_governance_gateway/attribution.py.
use mcp_governance_gateway.Base.{String, ◌<>◌, Bool, Option, none, some, List, if◌then◌else◌}

pub record Principal : Type 0 where
  pub actor : String
  pub project : String
  pub roles : List String
  pub token_id : String
  pub issue_project : Option String
  pub email : Option String

pub record RequestContext : Type 0 where
  pub actor : String
  pub project : String
  pub client : String
  pub request_id : String
  pub issue_project : Option String

-- RequestContext.from_principal, with the default client.
unfoldable pub from_principal : Principal → String → RequestContext
from_principal p request_id = record {
  actor = p.actor;
  project = p.project;
  client = "unknown";
  request_id = request_id;
  issue_project = p.issue_project;
}

-- `value or ""`
abbrev pub or_empty : Option String → String
or_empty none = ""
or_empty (some s) = s

unfoldable pub footer : RequestContext → Bool → String
footer context personal =
    if personal
    then "[via mcp-governance-gateway | audit=" <> context.request_id <> "]"
    else "[via mcp-governance-gateway | actor=" <> context.actor <> " | audit="
      <> context.request_id <> "]"
