-- ===== src/Tools/Specs/Memory.antt =====
-- The memory tools. Code: `TOOLS` of mcp_governance_gateway/tools/memory.py.
use mcp_governance_gateway.Base.{false, none, [], ◌∷◌, List}
use mcp_governance_gateway.Tools.Spec.{Family, Access, ToolSpec}

abbrev pub search_tool : ToolSpec
search_tool = record {
  name = "memory.search";
  family = Family.memory;
  access = Access.read;
  role = none;
  requires = [];
  arguments = "query" ∷ "limit" ∷ [];
  own_resource_id = false;
}

abbrev pub save_tool : ToolSpec
save_tool = record {
  name = "memory.save";
  family = Family.memory;
  access = Access.write;
  role = none;
  requires = [];
  arguments = "text" ∷ "tags" ∷ [];
  own_resource_id = false;
}

abbrev pub list_tool : ToolSpec
list_tool = record {
  name = "memory.list";
  family = Family.memory;
  access = Access.read;
  role = none;
  requires = [];
  arguments = "limit" ∷ "offset" ∷ [];
  own_resource_id = false;
}

abbrev pub lesson_save_tool : ToolSpec
lesson_save_tool = record {
  name = "memory.lesson_save";
  family = Family.memory;
  access = Access.write;
  role = none;
  requires = [];
  arguments = "rule" ∷ "reason" ∷ "confidence" ∷ [];
  own_resource_id = false;
}

abbrev pub lesson_list_tool : ToolSpec
lesson_list_tool = record {
  name = "memory.lesson_list";
  family = Family.memory;
  access = Access.read;
  role = none;
  requires = [];
  arguments = "limit" ∷ [];
  own_resource_id = false;
}

abbrev pub action_create_tool : ToolSpec
action_create_tool = record {
  name = "memory.action_create";
  family = Family.memory;
  access = Access.write;
  role = none;
  requires = [];
  arguments = "title" ∷ "description" ∷ "priority" ∷ [];
  own_resource_id = false;
}

abbrev pub action_list_tool : ToolSpec
action_list_tool = record {
  name = "memory.action_list";
  family = Family.memory;
  access = Access.read;
  role = none;
  requires = [];
  arguments = "limit" ∷ "includeDone" ∷ [];
  own_resource_id = false;
}

abbrev pub action_update_status_tool : ToolSpec
action_update_status_tool = record {
  name = "memory.action_update_status";
  family = Family.memory;
  access = Access.write;
  role = none;
  requires = [];
  arguments = "action_id" ∷ "status" ∷ [];
  own_resource_id = false;
}

abbrev pub tools : List ToolSpec
tools =
    search_tool ∷ save_tool ∷ list_tool ∷ lesson_save_tool ∷ lesson_list_tool ∷ action_create_tool
    ∷ action_list_tool ∷ action_update_status_tool ∷ []
