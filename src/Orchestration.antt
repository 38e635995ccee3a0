-- ===== src/Orchestration.antt =====
-- orchestration/: when a run is due, what it does, and when and which orders go out.
pub mod AnchorStage
pub mod ExecutionStage
pub mod Pipeline
pub mod Schedule
pub mod Targets
