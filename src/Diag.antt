-- ===== src/Diag.antt =====
-- src/diagnostic/: the report on the network and the kernel that is written to the log.
pub mod Stats
pub mod Print
pub mod Report
pub mod Totals
pub mod Control
pub mod Restart
