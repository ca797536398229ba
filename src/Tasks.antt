-- ===== src/Tasks.antt =====
-- apps/tasks: the reliability layer over the task queue.
pub mod Model
pub mod Policy
pub mod Env
pub mod Decide
pub mod Retry
pub mod Late
pub mod Chain
pub mod Signals
pub mod Reaper
pub mod Heartbeat
