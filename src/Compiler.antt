-- ===== src/Compiler.antt =====
-- services/ai-worker: how a prompt becomes a workflow, by the domain packs, the workflow compiler and the
-- stages around it.
pub mod Packs
pub mod Generate
pub mod Ask
pub mod Stages
mod Tests
