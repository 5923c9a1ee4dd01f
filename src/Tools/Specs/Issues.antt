-- ===== src/Tools/Specs/Issues.antt =====
-- The issues tools. Code: `TOOLS` of mcp_governance_gateway/tools/issues.py.
use mcp_governance_gateway.Base.{false, none, some, [], ◌∷◌, List}
use mcp_governance_gateway.Tools.Spec.{Family, Access, Feature, ToolSpec, issue_writer}

abbrev pub get_tool : ToolSpec
get_tool = record {
  name = "issues.get";
  family = Family.issues;
  access = Access.read;
  role = none;
  requires = Feature.issues ∷ [];
  arguments = "id" ∷ [];
  own_resource_id = false;
}

abbrev pub search_tool : ToolSpec
search_tool = record {
  name = "issues.search";
  family = Family.issues;
  access = Access.read;
  role = none;
  requires = Feature.issues ∷ [];
  arguments = "status" ∷ "assignee" ∷ "limit" ∷ [];
  own_resource_id = false;
}

abbrev pub mine_tool : ToolSpec
mine_tool = record {
  name = "issues.mine";
  family = Family.issues;
  access = Access.read;
  role = none;
  requires = Feature.issues ∷ [];
  arguments = "limit" ∷ [];
  own_resource_id = false;
}

abbrev pub categories_tool : ToolSpec
categories_tool = record {
  name = "issues.categories";
  family = Family.issues;
  access = Access.read;
  role = none;
  requires = Feature.issues ∷ [];
  arguments = [];
  own_resource_id = false;
}

abbrev pub create_tool : ToolSpec
create_tool = record {
  name = "issues.create";
  family = Family.issues;
  access = Access.write;
  role = some issue_writer;
  requires = Feature.issues ∷ [];
  arguments =
      "subject" ∷ "description" ∷ "tracker" ∷ "assignee" ∷ "startDate" ∷ "dueDate" ∷ "priority"
      ∷ "parentIssue" ∷ "category" ∷ "confirm" ∷ [];
  own_resource_id = false;
}

abbrev pub add_note_tool : ToolSpec
add_note_tool = record {
  name = "issues.add_note";
  family = Family.issues;
  access = Access.write;
  role = some issue_writer;
  requires = Feature.issues ∷ [];
  arguments = "id" ∷ "note" ∷ "confirm" ∷ [];
  own_resource_id = false;
}

abbrev pub update_status_tool : ToolSpec
update_status_tool = record {
  name = "issues.update_status";
  family = Family.issues;
  access = Access.write;
  role = some issue_writer;
  requires = Feature.issues ∷ [];
  arguments =
      "id" ∷ "status" ∷ "doneRatio" ∷ "assignee" ∷ "startDate" ∷ "dueDate" ∷ "priority"
      ∷ "parentIssue" ∷ "category" ∷ "confirm" ∷ [];
  own_resource_id = false;
}

abbrev pub tools : List ToolSpec
tools =
    get_tool ∷ search_tool ∷ mine_tool ∷ categories_tool ∷ create_tool ∷ add_note_tool
    ∷ update_status_tool ∷ []
