-- ===== src/Tools/Specs/Docs.antt =====
-- The docs tools. Code: `TOOLS` of mcp_governance_gateway/tools/docs.py.
use mcp_governance_gateway.Base.{false, none, some, [], ◌∷◌, List}
use mcp_governance_gateway.Tools.Spec.{
  Family, Access, Feature, ToolSpec, docs_writer, docs_reviewer,
}

abbrev pub search_tool : ToolSpec
search_tool = record {
  name = "docs.search";
  family = Family.docs;
  access = Access.read;
  role = none;
  requires = Feature.docs ∷ [];
  arguments = "query" ∷ "limit" ∷ [];
  own_resource_id = false;
}

abbrev pub list_tool : ToolSpec
list_tool = record {
  name = "docs.list";
  family = Family.docs;
  access = Access.read;
  role = none;
  requires = Feature.docs ∷ [];
  arguments = [];
  own_resource_id = false;
}

abbrev pub get_tool : ToolSpec
get_tool = record {
  name = "docs.get";
  family = Family.docs;
  access = Access.read;
  role = none;
  requires = Feature.docs ∷ [];
  arguments = "path" ∷ [];
  own_resource_id = false;
}

abbrev pub lint_tool : ToolSpec
lint_tool = record {
  name = "docs.lint";
  family = Family.docs;
  access = Access.read;
  role = none;
  requires = Feature.docs ∷ [];
  arguments = [];
  own_resource_id = false;
}

abbrev pub create_tool : ToolSpec
create_tool = record {
  name = "docs.create";
  family = Family.docs;
  access = Access.write;
  role = some docs_writer;
  requires = Feature.docs ∷ Feature.docs_review ∷ [];
  arguments = "path" ∷ "content" ∷ "contentStaged" ∷ "message" ∷ "confirm" ∷ [];
  own_resource_id = false;
}

abbrev pub update_tool : ToolSpec
update_tool = record {
  name = "docs.update";
  family = Family.docs;
  access = Access.write;
  role = some docs_writer;
  requires = Feature.docs ∷ Feature.docs_review ∷ [];
  arguments = "path" ∷ "content" ∷ "contentStaged" ∷ "message" ∷ "sha" ∷ "confirm" ∷ [];
  own_resource_id = false;
}

abbrev pub review_comment_tool : ToolSpec
review_comment_tool = record {
  name = "docs.review_comment";
  family = Family.docs;
  access = Access.review;
  role = some docs_reviewer;
  requires = Feature.docs ∷ Feature.docs_review ∷ [];
  arguments = "change" ∷ "body" ∷ "confirm" ∷ [];
  own_resource_id = false;
}

abbrev pub review_get_tool : ToolSpec
review_get_tool = record {
  name = "docs.review_get";
  family = Family.docs;
  access = Access.read;
  role = none;
  requires = Feature.docs ∷ Feature.docs_review ∷ [];
  arguments = "change" ∷ [];
  own_resource_id = false;
}

abbrev pub review_list_tool : ToolSpec
review_list_tool = record {
  name = "docs.review_list";
  family = Family.docs;
  access = Access.read;
  role = none;
  requires = Feature.docs ∷ Feature.docs_review ∷ [];
  arguments = "limit" ∷ [];
  own_resource_id = false;
}

abbrev pub review_add_reviewer_tool : ToolSpec
review_add_reviewer_tool = record {
  name = "docs.review_add_reviewer";
  family = Family.docs;
  access = Access.review;
  role = some docs_reviewer;
  requires = Feature.docs ∷ Feature.docs_review ∷ [];
  arguments = "change" ∷ "reviewer" ∷ "confirm" ∷ [];
  own_resource_id = false;
}

abbrev pub review_abandon_tool : ToolSpec
review_abandon_tool = record {
  name = "docs.review_abandon";
  family = Family.docs;
  access = Access.write;
  role = some docs_writer;
  requires = Feature.docs ∷ Feature.docs_review ∷ [];
  arguments = "change" ∷ "message" ∷ "confirm" ∷ [];
  own_resource_id = false;
}

abbrev pub asset_stage_url_tool : ToolSpec
asset_stage_url_tool = record {
  name = "docs.asset_stage_url";
  family = Family.docs;
  access = Access.write;
  role = some docs_writer;
  requires = Feature.docs ∷ Feature.docs_review ∷ Feature.docs_stage ∷ [];
  arguments = "kind" ∷ [];
  own_resource_id = false;
}

abbrev pub tools : List ToolSpec
tools =
    search_tool ∷ list_tool ∷ get_tool ∷ lint_tool ∷ create_tool ∷ update_tool ∷ review_comment_tool
    ∷ review_get_tool ∷ review_list_tool ∷ review_add_reviewer_tool ∷ review_abandon_tool
    ∷ asset_stage_url_tool ∷ []
