-- ===== src/Tasks/Reaper.antt =====
-- apps/tasks/reaper.py: finding RUNNING tasks whose worker died, and failing them.
pub mod Verdicts
pub mod Reap
pub mod Pass
use smallstack_tabler.Prelude.{
  ℕ, zero, suc, ◌+◌, ◌-◌, ◌*◌, String, Bool, true, false, not, ◌&&◌, ◌||◌, Option, none, some, List,
  [], ◌∷◌, ◌++◌, ltb, str_eq, or_else, is_none, get_last?, length, find, any_row, filter_rows,
  count_where, update_where, seconds, if◌then◌else◌,
}
use smallstack_tabler.Tasks.Model.{
  Cause, Status, running, failed, status_eq, LostReason, exited, stopped_heartbeating, no_heartbeat,
  worker_lost, Row, Heartbeat, Db, has_row_id, worker_lost_path,
}
use smallstack_tabler.Tasks.Env.{Env}
use smallstack_tabler.Tasks.Retry.{Retry, maybe_retry}
use smallstack_tabler.Tasks.Late.{LateCompletion, detect_late_completions, repair_batch}
use smallstack_tabler.Tasks.Chain.{is_retried, repair_missed_retries}

-- HEARTBEAT_RETENTION.
abbrev pub heartbeat_retention : ℕ
heartbeat_retention = seconds 604800

-- `lost_after_seconds()` and `orphan_seconds()`, in microseconds.
pub record ReaperSettings : Type 0 where
  pub lost_after : ℕ
  pub orphan : ℕ

pub record LostTask : Type 0 where
  pub result_id : ℕ
  pub task_path : String
  pub worker_id : String
  pub reason : LostReason

pub record ReapResult : Type 0 where
  pub running_count : ℕ
  pub reaped : List LostTask
  pub raced : ℕ
  pub reaped_then_completed : ℕ
  pub retried_count : ℕ
  pub repaired : ℕ
  pub heartbeats_pruned : ℕ

-- `a or b` on texts.
abbrev pub text_or : String → String → String
text_or a b = if str_eq a "" then b else a

-- `_lost_reason`; `db_now` is the database's clock and `now` the caller's.
unfoldable pub lost_reason :
    ReaperSettings → Row → String → Option Heartbeat → ℕ → ℕ → Option LostReason
lost_reason s row worker_id (some hb) db_now now =
    let name = text_or hb.label worker_id in
    let host = text_or hb.hostname "?" in
    elim hb.stopped_at [
      | some t ↦ some (exited name host hb.pid t)
      | none ↦
          if ltb (hb.last_seen_at + s.lost_after) db_now
          then some
              (stopped_heartbeating name host hb.pid hb.last_seen_at (db_now - hb.last_seen_at))
          else none
    ]
lost_reason s row worker_id none db_now now =
    let started = or_else row.started_at row.enqueued_at in
    if ltb (started + s.orphan) now
    then some (no_heartbeat (text_or worker_id "unknown") started)
    else none

-- `worker_id in exclude`.
unfoldable pub contains_text : String → List String → Bool
contains_text w [] = false
contains_text w (x ∷ xs) = str_eq x w || contains_text w xs

-- `row.worker_ids[-1] if row.worker_ids else ""`.
abbrev pub claimant : Row → String
claimant row = or_else (get_last? row.worker_ids) ""

abbrev pub has_worker_id : String → Heartbeat → Bool
has_worker_id w h = str_eq h.worker_id w

abbrev pub is_running : Row → Bool
is_running r = status_eq r.status running

-- `worker_id and worker_id in exclude`.
abbrev pub is_excluded : List String → String → Bool
is_excluded exclude w = not (str_eq w "") && contains_text w exclude

-- The verdict on one RUNNING row in `find_lost_tasks`.
unfoldable pub judge :
    ReaperSettings → List String → List Heartbeat → ℕ → ℕ → Row → Option LostReason
judge s exclude beats db_now now row =
    if is_excluded exclude (claimant row)
    then none
    else lost_reason s row (claimant row) (find (has_worker_id (claimant row)) beats) db_now now

abbrev pub add_lost : Row → Option LostReason → List LostTask → List LostTask
add_lost row none lost = lost
add_lost row (some reason) lost =
    record {
      result_id = row.id;
      task_path = row.call.task_path;
      worker_id = claimant row;
      reason = reason;
    }
    ∷ lost

unfoldable pub judge_rows :
    ReaperSettings → List String → List Heartbeat → ℕ → ℕ → List Row → List LostTask
judge_rows s exclude beats db_now now [] = []
judge_rows s exclude beats db_now now (r ∷ rs) =
    add_lost r (judge s exclude beats db_now now r) (judge_rows s exclude beats db_now now rs)

unfoldable pub find_lost_tasks : ReaperSettings → List String → ℕ → ℕ → Db → ℕ × List LostTask
find_lost_tasks s exclude db_now now db =
    let rows = filter_rows is_running db.rows in
    (length rows, judge_rows s exclude db.heartbeats db_now now rows)

-- `stopped_at < cutoff or last_seen_at < cutoff`, NULL being in no range.
abbrev pub is_old : ℕ → Heartbeat → Bool
is_old now h =
    elim h.stopped_at [ none ↦ false | some t ↦ ltb (t + heartbeat_retention) now ]
    || ltb (h.last_seen_at + heartbeat_retention) now

unfoldable pub prune_heartbeats : ℕ → Db → ℕ × Db
prune_heartbeats now db = (
  count_where (is_old now) db.heartbeats,
  record db { heartbeats = filter_rows (λ h. not (is_old now h)) db.heartbeats },
)

abbrev pub is_running_row : ℕ → Row → Bool
is_running_row i r = has_row_id i r && is_running r

abbrev pub reaped_row : ℕ → LostReason → Row → Row
reaped_row now reason r = record r {
  status = failed;
  finished_at = some now;
  return_value = none;
  exception_class_path = worker_lost_path;
  traceback = worker_lost reason;
}

-- The verdict is written only while the row is still RUNNING.
unfoldable pub fail_lost : LostTask → ℕ → Db → Db
fail_lost t now db = record db {
  rows = update_where (is_running_row t.result_id) (reaped_row now t.reason) db.rows;
}

-- One turn of the loop of `reap_lost_tasks`: whether it reaped, whether it retried, and the tables.
pub data Reaped : Type 0 where
  lost_race : Reaped
  failed_task : Bool → Reaped

unfoldable pub reap_one : Env → LostTask → ℕ → Db → Reaped × Db
reap_one env t now db =
    if not (any_row (is_running_row t.result_id) db.rows)
    then (lost_race, db)
    else (let (r, after) = maybe_retry env t.result_id Cause.lost now (fail_lost t now db) in
        (failed_task (is_retried r), after))

abbrev pub count_reaped : LostTask → Reaped → ReapResult → ReapResult
count_reaped t lost_race r = record r { raced = suc r.raced }
count_reaped t (failed_task again) r = record r {
  reaped = r.reaped ++ t ∷ [];
  retried_count = if again then suc r.retried_count else r.retried_count;
}

unfoldable pub reap_rows : Env → ℕ → List LostTask → ReapResult → Db → ReapResult × Db
reap_rows env now [] r db = (r, db)
reap_rows env now (t ∷ ts) r db =
    let (one, after) = reap_one env t now db in reap_rows env now ts (count_reaped t one r) after

unfoldable pub reap_lost_tasks :
    Env → ReaperSettings → (List Row → List Row) → List String → Bool → ℕ → ℕ → Db → ReapResult × Db
reap_lost_tasks env s order exclude dry_run db_now now db =
    let (count, lost) = find_lost_tasks s exclude db_now now db in
    let result : ReapResult = record {
      running_count = count;
      reaped = [];
      raced = 0;
      reaped_then_completed = 0;
      retried_count = 0;
      repaired = 0;
      heartbeats_pruned = 0;
    } in
    if dry_run
    then (record result { reaped = lost }, db)
    else (let (r, db1) = reap_rows env now lost result db in
        let (repaired, db2) = repair_missed_retries env order now db1 in
        let (late, db3) = detect_late_completions now repair_batch db2 in
        let (pruned, db4) = prune_heartbeats now db3 in
        (
          record r {
            reaped_then_completed = length late;
            repaired = repaired;
            heartbeats_pruned = pruned;
          },
          db4,
        ))
