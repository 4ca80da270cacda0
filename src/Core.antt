-- ===== src/Core.antt =====
-- core/: the store and what stands directly on it.
pub mod Store
pub mod Worker
pub mod Events
pub mod Daemon
