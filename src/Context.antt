-- ===== src/Context.antt =====
-- context/: what is done to the model's context before a summary is asked for.
pub mod Pruner
pub mod Meter
