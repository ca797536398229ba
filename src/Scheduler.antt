-- ===== src/Scheduler.antt =====
-- apps/scheduler: cadences, the tick, the outcomes of runs, and the saving of a job.
pub mod Schedules
pub mod Tick
pub mod Reconcile
pub mod Save
