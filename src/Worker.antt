-- ===== src/Worker.antt =====
-- internal/worker: the local admission decision of one worker.
pub mod Pool
pub mod Leaser
pub mod Replica
pub mod Limiter
pub mod Server
