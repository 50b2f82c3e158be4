-- ===== src/Inference.antt =====
-- backend/app/inference: how a request for an answer finds a model provider.
pub mod Health
pub mod Contracts
pub mod Registry
pub mod Router
