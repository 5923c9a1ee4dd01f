-- ===== src/Tools/Registry.antt =====
-- Every tool that the gateway serves, in the order that `tools/list` advertises them.
-- Code: mcp_governance_gateway/tools/registry.py.
pub mod Sound
use mcp_governance_gateway.Base.{
  String, Bool, true, false, not, ◌&&◌, ◌||◌, none, some, List, [], ◌∷◌, ◌++◌, if◌then◌else◌,
}
use mcp_governance_gateway.Base.Text.{is_empty}
use mcp_governance_gateway.Base.Eq.{string_eq, contains}
use mcp_governance_gateway.Base.Dict.{Dict, put}
use mcp_governance_gateway.Principal.{Principal, or_empty}
use mcp_governance_gateway.Tools.Spec.{Family, Feature, ToolSpec, feature_eq, family_eq}
use mcp_governance_gateway.Tools.Specs.Memory
use mcp_governance_gateway.Tools.Specs.Issues
use mcp_governance_gateway.Tools.Specs.Docs
use mcp_governance_gateway.Tools.Specs.Ci

unfoldable pub registry : List ToolSpec
registry = Memory.tools ++ Issues.tools ++ Docs.tools ++ Ci.tools

-- {spec.name: spec for spec in specs}
unfoldable pub by_name : Dict String ToolSpec → List ToolSpec → Dict String ToolSpec
unfolding put
by_name d [] = d
by_name d (spec ∷ specs) = by_name (put spec.name spec d) specs

unfoldable pub specs_by_name : Dict String ToolSpec
unfolding by_name registry
specs_by_name = by_name [] registry

abbrev pub has_feature : Feature → List Feature → Bool
has_feature f [] = false
has_feature f (g ∷ gs) = feature_eq f g || has_feature f gs

-- spec.requires <= enabled
unfoldable pub subset : List Feature → List Feature → Bool
subset [] enabled = true
subset (f ∷ fs) enabled = has_feature f enabled && subset fs enabled

-- `spec.role is not None and spec.role not in principal.roles`
unfoldable pub lacks_role : ToolSpec → Principal → Bool
lacks_role spec p = elim spec.role [ none ↦ false | some role ↦ not (contains role p.roles) ]

-- `spec.family == ISSUES and not principal.issue_project`
unfoldable pub lacks_tracker : ToolSpec → Principal → Bool
lacks_tracker spec p = family_eq spec.family Family.issues && is_empty (or_empty p.issue_project)

-- The body of the loop of `visible_tools`: whether the spec is appended.
unfoldable pub is_visible : Principal → List Feature → ToolSpec → Bool
unfolding subset lacks_role lacks_tracker
is_visible p enabled spec =
    if not (subset spec.requires enabled)
    then false
    else if lacks_tracker spec p
    then false
    else if lacks_role spec p
    then false
    else true

unfoldable pub visible_from : Principal → List Feature → List ToolSpec → List ToolSpec
unfolding is_visible
visible_from p enabled [] = []
visible_from p enabled (spec ∷ specs) =
    let rest = visible_from p enabled specs in
    if is_visible p enabled spec then spec ∷ rest else rest

unfoldable pub visible_tools : Principal → List Feature → List ToolSpec
unfolding visible_from registry
visible_tools p enabled = visible_from p enabled registry
