-- ===== src/Services.antt =====
-- The small classes of app/core and app/services, one child for each.
pub mod Parser
pub mod Approvals
pub mod Rollback
pub mod Batching
pub mod Verification
pub mod Contexts
pub mod Costs
pub mod Idempotency
