-- ===== src/Evaluation.antt =====
-- evaluation/: the trading calendar and the choice of interest rates.
pub mod Anchoring
pub mod Calendar
pub mod Scorable
pub mod Sequential
pub mod TBill
mod Tests
