-- ===== src/Tools/Spec.antt =====
-- What a tool is. Code: mcp_governance_gateway/tools/base.py.
use mcp_governance_gateway.Base.{String, Bool, true, false, Option, List}

-- The backend families.
pub data Family : Type 0 where
  memory issues docs ci : Family

pub data Access : Type 0 where
  read write review : Access

pub data Feature : Type 0 where
  issues docs docs_review docs_stage ci ci_write : Feature

abbrev pub issue_writer : String
issue_writer = "issue_writer"

abbrev pub docs_writer : String
docs_writer = "docs_writer"

abbrev pub docs_reviewer : String
docs_reviewer = "docs_reviewer"

abbrev pub ci_runner : String
ci_runner = "ci_runner"

-- The texts and value shapes of a tool's definition are for the client to read, and no code of the
-- gateway reads them: `arguments` is the set of the names that the schema declares.
pub record ToolSpec : Type 0 where
  pub name : String
  pub family : Family
  pub access : Access
  pub role : Option String
  pub requires : List Feature
  pub arguments : List String
  -- Whether the spec names the audit's handle itself (`resource_id`); only `ci.stop` does.
  pub own_resource_id : Bool

-- A family's constant, as the prefix of its tools' names.
unfoldable pub family_name : Family → String
family_name Family.memory = "memory"
family_name Family.issues = "issues"
family_name Family.docs = "docs"
family_name Family.ci = "ci"

abbrev pub feature_eq : Feature → Feature → Bool
feature_eq Feature.issues Feature.issues = true
feature_eq Feature.docs Feature.docs = true
feature_eq Feature.docs_review Feature.docs_review = true
feature_eq Feature.docs_stage Feature.docs_stage = true
feature_eq Feature.ci Feature.ci = true
feature_eq Feature.ci_write Feature.ci_write = true
feature_eq _ _ = false

abbrev pub family_eq : Family → Family → Bool
family_eq Family.memory Family.memory = true
family_eq Family.issues Family.issues = true
family_eq Family.docs Family.docs = true
family_eq Family.ci Family.ci = true
family_eq _ _ = false
