-- ===== src/Scenarios.antt =====
-- Runs at concrete inputs: stores and logs of session/, and the theorems applied to them.
pub mod Leases
pub mod Logs
pub mod Masks
pub mod Batches
pub mod Jobs
pub mod Handles
pub mod Contents
pub mod Folds
pub mod Subscriptions
pub mod Turns
pub mod Inboxes
pub mod Approvals
