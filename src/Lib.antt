-- ===== src/Lib.antt =====
-- Smallstack: the task reliability layer, the scheduler's tick, the approvals service, the
-- deliveries of webhooks, the documents of runbooks and the summaries of uptime monitoring.
--
-- The program is a Django project. The parts modelled here are those that decide: which failed
-- background task is run again, which running one is given up for lost, which scheduled job fires at
-- a tick, which decision on an approval request stands, when a webhook is sent again, which text a
-- versioned document has and who may change it, and what remains of the beats of a monitor when
-- they are pruned. Each of them is a few functions over database tables, and most rely on
-- conditional UPDATEs, unique columns or transactions to be safe when several processes run them at
-- once.
--
-- How the parts interact: the scheduler's tick (apps/scheduler/services.py) enqueues a task, pins
-- its retry budget by `pin_max_attempts` and reads its outcome by `chain_outcome`, both of
-- apps/tasks/reliability.py. The worker's signal (apps/tasks/signals.py), the reaper
-- (apps/tasks/reaper.py) and the repair sweep all retry by `maybe_retry`. The reaper reads the rows
-- that apps/tasks/heartbeat.py writes. Approvals, webhooks, runbooks
-- and uptime monitoring stand alone. Within a runbook, the permissions guard the service, and the
-- retention sweep prunes the versions that the service writes.
--
-- Which file models what:
--   Prelude, Prelude/*         shared names, Boolean tests, lists, and tables with their updates.
--   Tasks/Model                apps/tasks/models.py, apps/tasks/exceptions.py, the queue's rows.
--   Tasks/Policy, Tasks/Decide, Tasks/Retry, Tasks/Late, Tasks/Chain
--                              apps/tasks/reliability.py: policies and backoff; `_decide`;
--                              `maybe_retry` and `pin_max_attempts`; `_mark_superseded` and late
--                              completions; `chain_outcome` and `repair_missed_retries`.
--   Tasks/Env                  what that file takes from outside, and the laws of the queue.
--   Tasks/Reaper, Tasks/Heartbeat, Tasks/Signals
--                              apps/tasks/reaper.py, heartbeat.py, signals.py.
--   Scheduler/Schedules        apps/scheduler/schedules.py: intervals and the next run.
--   Scheduler/Tick             apps/scheduler/services.py, `run_due_jobs` and what it calls.
--   Scheduler/Reconcile        the same file, `reconcile_run_outcomes`.
--   Scheduler/Save             apps/scheduler/models.py: `ScheduledJob.save`.
--   Approvals/Model, Approvals/Permissions, Approvals/Services
--                              apps/approvals/models.py, permissions.py, services.py.
--   Webhooks/Deliveries        apps/webhooks/models.py, tasks.py, services.py: the attempts of a
--                              delivery, its backoff and the retry tick.
--   Runbook/Model, Runbook/Permissions
--                              apps/runbook/models.py, permissions.py.
--   Runbook/Text, Runbook/Service, Runbook/Lookup, Runbook/Documents, Runbook/Shelves
--                              apps/runbook/service.py: `strip` and appending; the guard and
--                              `write_version`; resolving and reading; creating, upserting,
--                              restoring, archiving and deleting; runbooks, sections and moves.
--   Runbook/Locked             sequences of calls of that service.
--   Runbook/Retention          apps/runbook/retention.py, conf.py: pruning, expiry and the sweep.
--   Heartbeat/Model            apps/heartbeat/models.py: maintenance windows.
--   Heartbeat/Services         apps/heartbeat/services.py: pruning into daily summaries, and the
--                              counts of apps/heartbeat/status.py that are summed with them.
--   Tests, Tests/*             concrete inputs, and the theorems at them.
-- The child modules of these hold the proofs, and are named for what they prove.
--
-- How the code is written down. A table is the list of its rows in the database's order, so
-- `filter(...).first()` is `find`, `filter(...).update(...)` is `update_where`, `exists()` is
-- `any_row`. A function that writes takes the tables and gives them back. An exception is a
-- constructor of the result, and a rolled back transaction gives the old tables. Times and durations
-- are natural numbers of microseconds, ids are natural numbers. A test `t >= now - d` is written
-- `now <= t + d`, which means the same where a subtraction would stop at zero. Log records, traces
-- and the texts of messages are left out, but for what a text quotes.
--
-- Parameters: the settings; `import_string` and exception classes; the random draw of the jitter;
-- the queue's `enqueue`, which documents that it inserts a READY row with a new id; whether the
-- mail on a failed run is enqueued, and its row; dateutil,
-- croniter and the tz database, which document that they step forward; the registry of kinds, whose
-- hooks answer or raise; the order that `order_by` gives; how a webhook's HTTP request ends, or that it raises; the
-- primary keys of new rows of a runbook, which are not in use, and `slugify`; the calendar of the
-- time zone, whose dates and day bounds agree; averages and rounded percentages in floating point.
--
-- Bounds: `walk` takes 1000 turns (`_MAX_CHAIN`), enough for a chain whose attempt numbers grow and
-- stay within 1000. The loops of apps/scheduler/schedules.py take 10000 turns, enough for an anchor
-- less than 10000 days before the given time. No other function has a bound: they recurse on lists.
--
-- Not modelled: Unicode digits and spaces in interval specifications, which are taken as ASCII;
-- `canonical_timezone`, a parameter; the interleaving of two processes inside one function, whose
-- database calls run in sequence here, although `enqueue_retry` and the approvals calls take a
-- decision or a request that may be stale; the request of a webhook with its signature and guard, fan-out and replay; the code registry of
-- jobs; of runbooks the plain text kept for search, the storage of files, the order of a listing,
-- copies, clones and templates; of uptime monitoring the uptime over a window, the timelines, the
-- epochs and the checks of the database; and the views, forms, templates, REST and MCP surfaces of
-- every app.

pub mod Prelude
pub mod Tasks
pub mod Scheduler
pub mod Approvals
pub mod Webhooks
pub mod Runbook
pub mod Heartbeat
pub mod Tests
