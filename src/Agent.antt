-- ===== src/Agent.antt =====
-- src/agent: what stands between a run and the model provider.
pub mod Budget
pub mod RateLimit
