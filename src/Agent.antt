-- ===== src/Agent.antt =====
-- The agent: its event hub, the turns of its loop, its inbox and its approvals (agent/).
pub mod Hub
pub mod Turn
pub mod Inbox
pub mod Approval
