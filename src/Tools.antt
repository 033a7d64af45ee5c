-- ===== src/Tools.antt =====
-- tools/: the catalog of an agent, and how the calls of one model step are run.
pub mod Scope
pub mod Batch
