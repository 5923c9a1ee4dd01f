-- ===== src/Tools/Calls.antt =====
-- The handlers of the tool families. Code: `call` of the modules of mcp_governance_gateway/tools.
pub mod Values
pub mod Memory
pub mod Issues
pub mod Ci
pub mod Docs
pub mod Gated
pub mod Confirmed
pub mod Ungated
pub mod Proposed
