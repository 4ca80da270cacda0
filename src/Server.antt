-- ===== src/Server.antt =====
-- server/: the control plane of runs.
pub mod Semaphore
pub mod Scheduler
