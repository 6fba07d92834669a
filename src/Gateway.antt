-- ===== src/Gateway.antt =====
-- services/ai-worker/brainflow_worker/gateway: the budgets of the LLM requests, and the pins of the
-- models.
pub mod Budget
pub mod Pins
pub mod Float
pub mod Candidate
pub mod Scoring
pub mod Select
pub mod Recommend
pub mod Registry
pub mod Secrets
pub mod Providers
mod Tests
