-- ===== src/Cron/Scheduler.antt =====
-- src/cron/schedule.ts: the class `Scheduler`, its rows in the database, its jobs and its attempts.
pub mod State
pub mod Attempt
pub mod Rows
pub mod Gate
pub mod Counted
pub mod Ceiling
pub mod Load
pub mod Missed
pub mod Start
mod Tests
