-- ===== src/Session.antt =====
-- The session package (session/).
pub mod Json
pub mod Errors
pub mod Blocks
pub mod Event
pub mod Store
pub mod Lease
pub mod Trace
pub mod Recovery
pub mod Surface
pub mod Cache
