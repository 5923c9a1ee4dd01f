-- ===== src/Review/Tests.antt =====
-- A proposal at a concrete gateway: Ann proposes a document under her own credential.
use mcp_governance_gateway.Base.{true, some, [], ◌∷◌}
use mcp_governance_gateway.Keystore.{key_ok}
use mcp_governance_gateway.Review.{ReviewSpec}
use mcp_governance_gateway.Review.Service.Credential.{creates, perform, Adds, perform-IsAccountable}
use mcp_governance_gateway.Gateway.Tests.{base}
use mcp_governance_gateway.Tools.Host.{Env, World, Method, Request}
use mcp_governance_gateway.Confirm as Confirm
use mcp_governance_gateway.Limits as Limits

abbrev spec : ReviewSpec
spec = record {
  project = "p";
  type = "github";
  repo = "team/docs";
  api = "https://api.github.com";
  base_branch = "main";
}

abbrev env : Env
env = record base {
  has_docs = true;
  has_review = true;
  context = record base.context { actor = "ann"; project = "p" };
  review_specs = λ project. some spec;
  review_hosts = "github" ∷ [];
  key_resolver = some (λ actor backend. (key_ok, some "secret"));
}

abbrev world : World
world = record {
  confirm = Confirm.empty;
  limiter = Limits.fresh;
  sent = [];
  assets = record { uploads = []; staged = [] };
}

-- Bob proposed before, under his own credential.
abbrev by_bob : Request
by_bob = record {
  method = Method.review_get_change;
  review = some (spec, "of bob");
  values = [];
  context = record base.context { actor = "bob"; project = "p" };
}

abbrev later : World
later = record world { sent = by_bob ∷ [] }

perform-IsAccountable_example :
    Adds env (by_bob ∷ []) (perform env (creates "wiki/a.md" "# A" "Add a") later).1.sent
perform-IsAccountable_example = perform-IsAccountable env (creates "wiki/a.md" "# A" "Add a") later
