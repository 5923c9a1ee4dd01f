-- ===== src/Gateway/Tests.antt =====
-- A tool call at a concrete gateway: Ann confirms a note on an issue.
use mcp_governance_gateway.Base.{
  String, ◌≡◌, ◌≢◌, refl, sym, ◌∙◌, ap, true, false, none, some, [], ◌∷◌, ◌<>◌, arith, length,
}
use mcp_governance_gateway.Base.Dict.{get}
use mcp_governance_gateway.Base.Eq.{string_eq}
use mcp_governance_gateway.Base.Text.{join}
use mcp_governance_gateway.Errors.{ok}
use mcp_governance_gateway.Principal.{Principal, RequestContext}
use mcp_governance_gateway.Runtime.{Runtime}
use mcp_governance_gateway.Value.{Value, null, str, obj, Fields, field, end, Args, dict, get_value}
use mcp_governance_gateway.Confirm as Confirm
use mcp_governance_gateway.Confirm.{issue, verify}
use mcp_governance_gateway.Limits as Limits
use mcp_governance_gateway.Limits.{second}
use mcp_governance_gateway.Policy.{decide}
use mcp_governance_gateway.Tools.Specs.Issues as IssueTools
use mcp_governance_gateway.Tools.Registry.{specs_by_name}
use mcp_governance_gateway.Tools.Host.{World, Env}
use mcp_governance_gateway.Tools.Calls.Gated.{gated, IsConfirmed}
use mcp_governance_gateway.Gateway.{
  App, Moment, Deployment, dict_arg, env_of, named_call, handle_tool_call,
}
use mcp_governance_gateway.Gateway.Permitted.{
  IsPermitted, handle_tool_call-IsPermitted, handle_tool_call-IsConfirmed,
}
use mcp_governance_gateway.Gateway.Audited.{IsAnswered, handle_tool_call-audits}

-- The texts of a dict, each behind its key, stand for its JSON.
unfoldable pub all_text : Fields → String
all_text end = ""
all_text (field key (str s) fs) = key <> "=" <> s <> ";" <> all_text fs
all_text (field key v fs) = key <> ";" <> all_text fs

unfoldable pub some_text : Value → String
unfolding all_text
some_text (obj fs) = all_text fs
some_text (str s) = s
some_text _ = ""

abbrev pub plain : Runtime
plain = record {
  sha256 = λ s. s;
  dumps = some_text;
  dumps_text = some_text;
  str_of = some_text;
  lower = λ s. s;
  repr = λ s. s;
  re_search = λ pattern text. false;
}

abbrev pub ann : Principal
ann = record {
  actor = "ann";
  project = "p";
  roles = "issue_writer" ∷ [];
  token_id = "t1";
  issue_project = some "demo";
  email = none;
}

abbrev pub no_context : RequestContext
no_context = record { actor = ""; project = ""; client = ""; request_id = ""; issue_project = none }

abbrev pub now : Moment
now = record {
  request_id = "r1";
  duration_ms = 3;
  quota_at = second;
  verified_at = second;
  issued_at = second;
  nonce = "n1";
  staged_at = second;
  claimed_at = second;
  drawn_id = "";
  drawn_token = "";
}

abbrev pub base : Env
base = record {
  rt = plain;
  confirm_config = Confirm.default_config;
  limit_config = Limits.default_config;
  answer = λ sent request. ok (dict (("id", str "7") ∷ []));
  has_issues = true;
  has_ci = false;
  has_docs = false;
  has_review = false;
  has_stage = false;
  asset_base_url = "";
  review_specs = λ project. none;
  review_hosts = [];
  key_resolver = none;
  portal = none;
  principal = ann;
  context = no_context;
  quota_at = 0;
  verified_at = 0;
  issued_at = 0;
  nonce = "";
  staged_at = 0;
  claimed_at = 0;
  drawn_id = "";
  drawn_token = "";
}

abbrev pub host : Deployment
host = record {
  base = base;
  definition = λ spec. null;
  version = "1";
  docs_projects = λ project. false;
  ci_projects = λ project. false;
  trigger_projects = λ project. false;
}

abbrev note : Args
note = ("id", str "7") ∷ ("note", str "hello") ∷ []

abbrev arguments : Args
arguments = ("id", str "7") ∷ ("note", str "hello") ∷ ("confirm", str "n0") ∷ []

abbrev params : Args
params = ("name", str "issues.add_note") ∷ ("arguments", dict arguments) ∷ []

-- The note was prepared under the id "n0".
abbrev pub app : App
app = record {
  world = record {
    confirm =
        (issue plain Confirm.default_config ann "issues.add_note" note 0 "n0" Confirm.empty).1;
    limiter = Limits.fresh;
    sent = [];
    assets = record { uploads = []; staged = [] };
  };
  audit = [];
}

named : get_value params "name" ≡ str "issues.add_note"
unfolding get_value get
named = refl

given : dict_arg (get_value params "arguments") ≡ some arguments
unfolding get_value get dict dict_arg
given = refl

found : get "issues.add_note" specs_by_name ≡ some IssueTools.add_note_tool
unfolding get specs_by_name
found = refl

one_sent : length (gated (handle_tool_call host null params ann now app).1.world.sent) ≡ 1
unfolding handle_tool_call named_call decide get_value get dict dict_arg issue verify gated
    some_text join specs_by_name
one_sent = refl

sends : gated (handle_tool_call host null params ann now app).1.world.sent ≢ gated app.world.sent
unfolding gated
sends e = let zero_one : 1 ≡ 0 = sym one_sent ∙ ap length e in omega (arith, zero_one)

changes : (handle_tool_call host null params ann now app).1.world ≢ app.world
changes e = sends (ap (λ (w : World). gated w.sent) e)

handle_tool_call-IsPermitted_example :
    IsPermitted host "issues.add_note" arguments ann now app.world
      (handle_tool_call host null params ann now app).1.world
handle_tool_call-IsPermitted_example =
    handle_tool_call-IsPermitted host null params "issues.add_note" arguments ann now app named
      given changes

handle_tool_call-IsConfirmed_example :
    IsConfirmed (env_of host ann now) arguments "issues.add_note" app.world.confirm
handle_tool_call-IsConfirmed_example =
    handle_tool_call-IsConfirmed host null params "issues.add_note" arguments ann now app named
      given sends

handle_tool_call-audits_example :
    IsAnswered host null params ann now app (handle_tool_call host null params ann now app)
handle_tool_call-audits_example = handle_tool_call-audits host null params ann now app
