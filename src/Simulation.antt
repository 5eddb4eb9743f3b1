-- ===== src/Simulation.antt =====
-- simulation/: planning, approval, paper execution and the replay pipeline.
pub mod Dicts
pub mod Approval
pub mod Executor
pub mod Router
pub mod Pipeline
pub mod Samples
