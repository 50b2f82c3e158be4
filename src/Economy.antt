-- ===== src/Economy.antt =====
-- backend/app/services/economy.py: the economic ledger of a Universe, what is projected from it, and the
-- gates on spending.
pub mod Ledger
pub mod Entries
pub mod Capital
pub mod Projection
pub mod Replay
pub mod Suspension
pub mod Floor
pub mod Flows
mod Tests
