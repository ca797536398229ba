-- ===== src/Tasks/Signals.antt =====
-- apps/tasks/signals.py: the receivers of the worker's `task_finished` signal.
pub mod Delivery
use smallstack_tabler.Prelude.{
  ℕ, Bool, true, false, not, ◌&&◌, Option, none, some, is_none, if◌then◌else◌,
}
use smallstack_tabler.Tasks.Model.{Cause, Status, failed, status_eq, Db}
use smallstack_tabler.Tasks.Env.{Env}
use smallstack_tabler.Tasks.Retry.{maybe_retry, retry_of}
use smallstack_tabler.Tasks.Late.{record_late_completion}

-- The senders that `_from_database_worker` tells apart: an instance or a class of a backend.
pub data Sender : Type 0 where
  database_backend other_backend unknown : Sender

-- The verdict, and the `warned` flag afterwards.
unfoldable pub from_database_worker : Sender → Bool → Bool × Bool
from_database_worker database_backend warned = (true, warned)
from_database_worker other_backend warned = (false, warned)
from_database_worker unknown warned = (false, true)

-- `retry_failed_task`. Its exceptions are logged, so only the tables come back.
unfoldable pub retry_failed_task : Env → Sender → ℕ → Status → ℕ → Db → Db
retry_failed_task env sender i status now db =
    if not (from_database_worker sender false).0
    then db
    else (let (late, marked) = record_late_completion i now db in
        if is_none late && status_eq status failed
        then (maybe_retry env i Cause.raised now marked).1
        else marked)

pub data Severity : Type 0 where
  warning error info : Severity

-- `log_task_outcome`; `soften` is SMALLSTACK_TASKS_SOFTEN_RETRYABLE_LOGS.
unfoldable pub log_task_outcome : Bool → ℕ → Status → Db → Severity
log_task_outcome soften i status db =
    if soften && (status_eq status failed && not (is_none (retry_of i db)))
    then warning
    else if status_eq status failed
    then error
    else info
