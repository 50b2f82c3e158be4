-- ===== src/Capabilities.antt =====
-- backend/app/capabilities: what an Agent may do in the world, by whose leave.
pub mod Contracts
pub mod Policy
pub mod Gateway
pub mod Grant
pub mod Spending
pub mod Runtime
mod Tests
