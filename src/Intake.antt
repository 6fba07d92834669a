-- ===== src/Intake.antt =====
-- services/ai-worker/brainflow_worker/intake: the limits, the quarantine and the archive adapter of
-- the sandboxed intake.
pub mod Limits
pub mod Quarantine
pub mod Archive
pub mod Identity
pub mod Document
pub mod Evidence
pub mod Registry
pub mod Pipeline
mod Tests
