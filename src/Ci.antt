-- ===== src/Ci.antt =====
-- The programs under ci/ that run the driver's tests for Gerrit changes and prepare Manila for them.
pub mod Listener
pub mod Runs
pub mod Patcher
