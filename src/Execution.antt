-- ===== src/Execution.antt =====
-- execution/: the broker, one name's orders, the book of a run, and the emergency halt.
pub mod Book
pub mod Conditions
pub mod Gateway
pub mod Halt
pub mod Leg
pub mod Pricing
pub mod Reference
pub mod Sample
mod Tests
