-- ===== src/Tasks/Model.antt =====
-- apps/tasks/models.py, apps/tasks/exceptions.py, and the columns of the queue's `DBTaskResult` that
-- apps/tasks reads and writes. Ids (UUIDs) are numbers; times and durations count microseconds.
pub mod Keys
use smallstack_tabler.Prelude.{
  ℕ, ℤ, String, Bool, true, false, ◌||◌, Option, none, some, List, ◌≤◌, ◌==◌, str_eq, same_option,
  find, any_row, update_where, count_where, if◌then◌else◌,
}

-- `TaskResultStatus` of django.tasks.
pub data Status : Type 0 where
  ready running successful failed : Status

abbrev pub status_eq : Status → Status → Bool
status_eq ready ready = true
status_eq running running = true
status_eq successful successful = true
status_eq failed failed = true
status_eq _ _ = false

-- `TaskAttempt.Cause`; `Cause.failed` is "Task raised".
pub data Cause : Type 0 where
  first raised lost interrupted manual : Cause

abbrev pub is_lost : Cause → Bool
is_lost lost = true
is_lost _ = false

-- Why the reaper declared a task lost (`_lost_reason`): the three sentences, with what they quote.
pub data LostReason : Type 0 where
  exited : String → String → Option ℕ → ℕ → LostReason
  stopped_heartbeating : String → String → Option ℕ → ℕ → ℕ → LostReason
  no_heartbeat : String → ℕ → LostReason

-- The traceback column: what the worker recorded, or what the reaper and `_mark_superseded` write.
pub data Traceback : Type 0 where
  recorded : String → Traceback
  worker_lost : LostReason → Traceback
  retry_superseded : ℕ → Status → Traceback

-- What a task is enqueued with.
pub record Call : Type 0 where
  pub task_path : String
  pub queue_name : String
  pub priority : ℤ
  pub backend_name : String
  pub args : List String
  pub kwargs : List (String × String)

pub record Row : Type 0 where
  pub id : ℕ
  pub status : Status
  pub call : Call
  pub enqueued_at : ℕ
  pub started_at : Option ℕ
  pub finished_at : Option ℕ
  pub worker_ids : List String
  pub return_value : Option String
  pub exception_class_path : String
  pub traceback : Traceback

pub record Attempt : Type 0 where
  pub result_id : ℕ
  pub root_id : ℕ
  pub parent_id : Option ℕ
  pub attempt : ℕ
  pub cause : Cause
  pub max_attempts : Option ℕ
  pub created_at : ℕ
  pub parent_completed_at : Option ℕ
  pub parent_status : Option Status
  pub retry_cancelled : Bool

pub record Heartbeat : Type 0 where
  pub worker_id : String
  pub label : String
  pub hostname : String
  pub pid : Option ℕ
  pub queues : String
  pub last_seen_at : ℕ
  pub stopped_at : Option ℕ

-- The three tables.
pub record Db : Type 0 where
  pub rows : List Row
  pub attempts : List Attempt
  pub heartbeats : List Heartbeat

abbrev pub worker_lost_path : String
worker_lost_path = "apps.tasks.exceptions.WorkerLost"

abbrev pub retry_superseded_path : String
retry_superseded_path = "apps.tasks.exceptions.RetrySuperseded"

-- `path in BOOKKEEPING_PATHS`.
unfoldable pub is_bookkeeping : String → Bool
is_bookkeeping path = str_eq path retry_superseded_path

-- `path in INTERRUPTED_PATHS`.
unfoldable pub is_interrupted : String → Bool
is_interrupted path = str_eq path "builtins.SystemExit" || str_eq path "builtins.KeyboardInterrupt"

abbrev pub has_row_id : ℕ → Row → Bool
has_row_id i r = r.id == i

abbrev pub has_result_id : ℕ → Attempt → Bool
has_result_id i a = a.result_id == i

abbrev pub has_parent_id : ℕ → Attempt → Bool
has_parent_id i a = same_option a.parent_id i

abbrev pub same_row : Row → Row → Bool
same_row r s = r.id == s.id

-- The unique constraints of `TaskAttempt`: on `result_id`, and on `parent_id`, where NULLs differ.
abbrev pub same_result : Attempt → Attempt → Bool
same_result a b = a.result_id == b.result_id

abbrev pub same_parents : Option ℕ → Option ℕ → Bool
same_parents p none = false
same_parents p (some i) = same_option p i

abbrev pub same_parent : Attempt → Attempt → Bool
same_parent a b = same_parents a.parent_id b.parent_id

-- `DBTaskResult.objects.filter(id=i).first()`, and the same for the rows of `TaskAttempt`.
abbrev pub row_of : ℕ → Db → Option Row
row_of i db = find (has_row_id i) db.rows

abbrev pub attempt_of : ℕ → Db → Option Attempt
attempt_of i db = find (has_result_id i) db.attempts

abbrev pub child_of : ℕ → Db → Option Attempt
child_of i db = find (has_parent_id i) db.attempts
