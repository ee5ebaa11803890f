-- ===== src/Cron.antt =====
-- src/cron: the runs that a schedule starts.
pub mod Scheduler
