-- ===== src/Kernel.antt =====
-- services/ai-worker/brainflow_worker/kernel: the workflow, its policy gate and its executor.
pub mod Policy
pub mod Delimit
pub mod Gate
pub mod Workflow
pub mod Run
pub mod Topo
pub mod Attempt
pub mod Executor
mod Tests
