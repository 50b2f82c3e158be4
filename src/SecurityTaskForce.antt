-- ===== src/SecurityTaskForce.antt =====
-- backend/app/security_task_force: the authority of security work.
pub mod Grants
