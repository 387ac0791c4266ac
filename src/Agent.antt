-- ===== src/Agent.antt =====
-- pkg/agent/agent.go: the agent's bookkeeping between ticks, the apply with its rollback, and the
-- decision that a tick takes.
pub mod Pending
pub mod Record
pub mod Rollout
pub mod Gate
pub mod Retry
pub mod Prune
pub mod Reconcile
pub mod Startup
mod Tests
