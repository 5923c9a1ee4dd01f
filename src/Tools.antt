-- ===== src/Tools.antt =====
-- The tools: what a tool is, the registry of all of them, and the validation of their arguments.
-- Code: mcp_governance_gateway/tools.
pub mod Spec
pub mod Specs
pub mod Registry
pub mod Args
pub mod Host
pub mod Calls
