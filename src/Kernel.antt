-- ===== src/Kernel.antt =====
-- backend/app/kernel: how the Tasks of an executing Mission are claimed, finished, recovered, and how
-- the Mission ends.
mod Tasks
pub mod Orchestrator
pub mod Reconciler
pub mod Completion
pub mod Attempts
pub mod Recovery
pub mod AgentProfile
pub mod AgentRuntime
mod Tests
pub use Tasks.*
