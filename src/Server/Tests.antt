-- ===== src/Server/Tests.antt =====
-- A request to the MCP route with Ann's bearer.
use mcp_governance_gateway.Base.{
  String, ◌≡◌, ◌⊎◌, true, false, Option, none, some, [], ◌∷◌, if◌then◌else◌,
}
use mcp_governance_gateway.Base.Int.{pos}
use mcp_governance_gateway.Base.Eq.{◌==◌, string_eq}
use mcp_governance_gateway.Errors.{ok, err, value_error}
use mcp_governance_gateway.Hotfile.{start}
use mcp_governance_gateway.Value.{str, dict}
use mcp_governance_gateway.Auth.{build}
use mcp_governance_gateway.Gateway.Tests as Gateway
use mcp_governance_gateway.Oidc.Tests as Oidc
use mcp_governance_gateway.Server.{Incoming, Listener, ServerState, mcp}
use mcp_governance_gateway.Server.Authorized.{IsAuthorized, mcp-IsAuthorized}

abbrev listener : Listener
listener = record {
  rt = Gateway.plain;
  host = Gateway.host;
  serves_mcp = true;
  allowed_origins = [];
  has_sources = false;
  has_oidc = false;
  oidc = Oidc.config;
  ttl = 60;
  cooldown = 10;
  hmac = λ secret text. "d";
  verifier = record { secret = ""; prefix = "X-User" };
}

abbrev headers : String → Option String
headers name = if name == "Authorization" then some "bearer t-ann" else none

abbrev incoming : Incoming String
incoming = record {
  header_get = headers;
  length = ok (pos 40);
  body = ok (dict (("jsonrpc", str "2.0") ∷ ("method", str "tools/list") ∷ []));
  token_files = record {
    seen = [];
    locked = [];
    parsed = λ previous. err (value_error "unchanged");
    now = 0;
  };
  provider = Oidc.arrival;
  moment = Gateway.now;
}

abbrev state : ServerState String
state = record {
  tokens = start false (build Gateway.plain (("t-ann", Gateway.ann) ∷ []));
  identities = Oidc.state;
  app = Gateway.app;
}

mcp-IsAuthorized_example :
    ((mcp listener incoming state).1.app ≡ state.app)
    ⊎ IsAuthorized listener incoming state (mcp listener incoming state).1.app
mcp-IsAuthorized_example = mcp-IsAuthorized listener incoming state
