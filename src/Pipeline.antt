-- ===== src/Pipeline.antt =====
-- src/pipeline: what runs a pipeline, and what wraps a run of one.
pub mod Guard
pub mod Engine
