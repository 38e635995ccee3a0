-- ===== src/Contracts.antt =====
-- contracts/: the shared enumerations and records.
pub mod Commitment
pub mod Enums
pub mod RunStatus
