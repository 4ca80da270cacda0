-- ===== src/Tests.antt =====
-- Runs of the modelled parts on concrete data.
pub mod Workers
pub mod Slots
pub mod Leases
pub mod Selections
pub mod Scheduling
pub mod Stores
pub mod Spending
pub mod Edges
pub mod Engines
pub mod Registrations
pub mod Triggering
pub mod Compiling
pub mod Snapshots
