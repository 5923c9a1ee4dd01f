-- ===== src/Tools/Specs.antt =====
-- The four families' tools, one child for each `TOOLS` tuple.
pub mod Memory
pub mod Issues
pub mod Docs
pub mod Ci
