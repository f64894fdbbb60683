-- ===== src/Scheduler.antt =====
-- citra_workflow/scheduler.py: the election of the leader, the cron jobs that it registers and fires,
-- and the jobs that it runs at intervals.
pub mod Reaper
pub mod Timeouts
pub mod Cron
pub mod Registry
pub mod Fire
pub mod Election
