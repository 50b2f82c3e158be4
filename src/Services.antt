-- ===== src/Services.antt =====
-- backend/app/services: the operations that a Creator's requests are made of.
pub mod Missions
pub mod Conversations
pub mod Chronicle
pub mod Opportunities
mod Tests
