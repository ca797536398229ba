-- ===== src/Tasks/Late.antt =====
-- apps/tasks/reliability.py: attempts that completed after they were declared lost.
pub mod Laws
pub mod Cancelled
use smallstack_tabler.Prelude.{
  ℕ, zero, suc, ◌+◌, ◌*◌, String, Bool, true, false, not, ◌&&◌, ◌||◌, Option, none, some, List, [],
  ◌∷◌, map, leb, str_eq, or_else, is_none, take, find, any_row, filter_rows, count_where,
  update_where, ◌==◌, ltb, seconds, if◌then◌else◌,
}
use smallstack_tabler.Tasks.Model.{
  Status, ready, running, successful, failed, status_eq, is_lost, retry_superseded, Row, Attempt,
  Db, has_row_id, has_parent_id, row_of, worker_lost_path, retry_superseded_path,
}

-- LATE_COMPLETION_WINDOW and REPAIR_BATCH.
abbrev pub late_completion_window : ℕ
late_completion_window = seconds 86400

abbrev pub repair_batch : ℕ
repair_batch = 100

pub record LateCompletion : Type 0 where
  pub parent_id : ℕ
  pub retry_id : ℕ
  pub task_path : String
  pub status : Status
  pub retry_cancelled : Bool

-- The filter `reaped_child`: the retry of a reaped attempt, not yet marked.
unfoldable pub is_reaped_child : ℕ → Attempt → Bool
is_reaped_child parent a =
    has_parent_id parent a && (is_none a.parent_completed_at && is_lost a.cause)

abbrev pub is_ready_row : ℕ → Row → Bool
is_ready_row i r = has_row_id i r && status_eq r.status ready

unfoldable pub mark : ℕ → Status → ℕ → Db → Db
mark parent status completed_at db = record db {
  attempts =
      update_where (is_reaped_child parent)
        (λ a. record a { parent_completed_at = some completed_at; parent_status = some status })
        db.attempts;
}

abbrev pub cancelled_row : ℕ → Status → ℕ → Row → Row
cancelled_row parent status now r = record r {
  status = failed;
  finished_at = some now;
  return_value = none;
  exception_class_path = retry_superseded_path;
  traceback = retry_superseded parent status;
}

-- The best-effort cancel of a retry that has not started.
unfoldable pub cancel_ready : ℕ → Status → ℕ → ℕ → Db → Db
cancel_ready parent status child now db = record db {
  rows = update_where (is_ready_row child) (cancelled_row parent status now) db.rows;
}

unfoldable pub flag_cancelled : ℕ → Db → Db
flag_cancelled parent db = record db {
  attempts =
      update_where (has_parent_id parent) (λ a. record a { retry_cancelled = true }) db.attempts;
}

-- `_mark_superseded` behind its first query, which found the retry `child`.
unfoldable pub supersede : ℕ → Status → String → ℕ → ℕ → ℕ → Db → Option LateCompletion × Db
supersede parent status task_path completed_at now child db =
    if not (any_row (is_reaped_child parent) db.attempts)
    then (none, db)
    else (let marked = mark parent status completed_at db in
        let cancelled = any_row (is_ready_row child) marked.rows in
        let late : LateCompletion = record {
          parent_id = parent;
          retry_id = child;
          task_path = task_path;
          status = status;
          retry_cancelled = cancelled;
        } in
        (
          some late,
          if cancelled
              then flag_cancelled parent (cancel_ready parent status child now marked)
              else marked,
        ))

-- `_mark_superseded`.
unfoldable pub mark_superseded : ℕ → Status → String → ℕ → ℕ → Db → Option LateCompletion × Db
mark_superseded parent status task_path completed_at now db =
    elim (find (is_reaped_child parent) db.attempts) [
      | none ↦ (none, db)
      | some child ↦ supersede parent status task_path completed_at now child.result_id db
    ]

abbrev pub is_unfinished : Status → Bool
is_unfinished ready = true
is_unfinished running = true
is_unfinished _ = false

-- `record_late_completion`.
unfoldable pub record_late_completion : ℕ → ℕ → Db → Option LateCompletion × Db
record_late_completion i now db = elim (row_of i db) [
  | none ↦ (none, db)
  | some row ↦
      if is_unfinished row.status
      then (none, db)
      else mark_superseded i row.status row.call.task_path (or_else row.finished_at now) now db
]

-- The candidates of `detect_late_completions`.
unfoldable pub is_candidate : ℕ → Attempt → Bool
is_candidate now a =
    is_lost a.cause
    && (is_none a.parent_completed_at
        && (not (is_none a.parent_id) && leb now (a.created_at + late_completion_window)))

-- A finished row that is the parent of a candidate.
unfoldable pub is_finished_candidate : List Attempt → Row → Bool
is_finished_candidate candidates r =
    any_row (has_parent_id r.id) candidates && not (is_unfinished r.status)

-- A row that still carries the reaper's verdict.
unfoldable pub is_still_lost : Row → Bool
is_still_lost r = status_eq r.status failed && str_eq r.exception_class_path worker_lost_path

abbrev pub add_late : Option LateCompletion → List LateCompletion → List LateCompletion
add_late none found = found
add_late (some l) found = l ∷ found

-- The loop of `detect_late_completions`.
unfoldable pub detect_rows : ℕ → List Row → Db → List LateCompletion × Db
detect_rows now [] db = ([], db)
detect_rows now (r ∷ rs) db =
    let (late, after) =
      if is_still_lost r
      then (none, db)
      else mark_superseded r.id r.status r.call.task_path (or_else r.finished_at now) now db in
    let (found, final) = detect_rows now rs after in (add_late late found, final)

unfoldable pub detect_late_completions : ℕ → ℕ → Db → List LateCompletion × Db
detect_late_completions now limit db =
    let candidates = take limit (filter_rows (is_candidate now) db.attempts) in
    detect_rows now (filter_rows (is_finished_candidate candidates) db.rows) db
