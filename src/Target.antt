-- ===== src/Target.antt =====
-- src/target: work items, their edges, and the leases on them.
pub mod Claim
pub mod Selector
pub mod Deps
pub mod WorkItem
pub mod Registry
