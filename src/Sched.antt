-- ===== src/Sched.antt =====
-- internal/sched: the scheduler.
pub mod Scheduler
pub mod Starting
pub mod Advance
pub mod Firing
pub mod Tick
