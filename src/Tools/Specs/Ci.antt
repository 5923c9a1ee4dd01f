-- ===== src/Tools/Specs/Ci.antt =====
-- The ci tools. Code: `TOOLS` of mcp_governance_gateway/tools/ci.py.
use mcp_governance_gateway.Base.{true, false, none, some, [], ◌∷◌, List}
use mcp_governance_gateway.Tools.Spec.{Family, Access, Feature, ToolSpec, ci_runner}

abbrev pub status_tool : ToolSpec
status_tool = record {
  name = "ci.status";
  family = Family.ci;
  access = Access.read;
  role = none;
  requires = Feature.ci ∷ [];
  arguments = [];
  own_resource_id = false;
}

abbrev pub log_tool : ToolSpec
log_tool = record {
  name = "ci.log";
  family = Family.ci;
  access = Access.read;
  role = none;
  requires = Feature.ci ∷ [];
  arguments = "job" ∷ "lines" ∷ [];
  own_resource_id = false;
}

abbrev pub builds_tool : ToolSpec
builds_tool = record {
  name = "ci.builds";
  family = Family.ci;
  access = Access.read;
  role = none;
  requires = Feature.ci ∷ [];
  arguments = "job" ∷ "count" ∷ [];
  own_resource_id = false;
}

abbrev pub rerun_tool : ToolSpec
rerun_tool = record {
  name = "ci.rerun";
  family = Family.ci;
  access = Access.write;
  role = some ci_runner;
  requires = Feature.ci ∷ Feature.ci_write ∷ [];
  arguments = "job" ∷ "confirm" ∷ [];
  own_resource_id = false;
}

abbrev pub stop_tool : ToolSpec
stop_tool = record {
  name = "ci.stop";
  family = Family.ci;
  access = Access.write;
  role = some ci_runner;
  requires = Feature.ci ∷ Feature.ci_write ∷ [];
  arguments = "job" ∷ "queueItem" ∷ "build" ∷ "confirm" ∷ [];
  own_resource_id = true;
}

abbrev pub artifact_tool : ToolSpec
artifact_tool = record {
  name = "ci.artifact";
  family = Family.ci;
  access = Access.read;
  role = none;
  requires = Feature.ci ∷ [];
  arguments = "job" ∷ "build" ∷ [];
  own_resource_id = false;
}

abbrev pub tools : List ToolSpec
tools = status_tool ∷ log_tool ∷ builds_tool ∷ rerun_tool ∷ stop_tool ∷ artifact_tool ∷ []
