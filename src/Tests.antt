-- ===== src/Tests.antt =====
-- Concrete inputs: a small queue, a schedule, a request and a delivery, and the theorems at them.
mod Tasks
mod Reaped
mod Scheduler
mod Reconcile
mod Approvals
mod Webhooks
mod Runbook
mod Heartbeat
