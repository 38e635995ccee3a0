-- ===== src/Risk.antt =====
-- risk/: the kill switch.
pub mod KillSwitch
