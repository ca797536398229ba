-- ===== src/Tasks/Signals/Delivery.antt =====
-- apps/tasks/signals.py: a signal that is delivered twice, and the severity of what is logged.
use smallstack_tabler.Prelude.{
  ℕ, ◌≡◌, sym, ◌∙◌, ap, Bool, true, false, not, ◌&&◌, none, some, List, [], ◌∷◌, arith, any_row,
  Bool-cases, Option-cases, inl, inr, All, All-append, str_eq, if◌then◌else◌, any_row-eq-false,
  any_row-find,
}
use smallstack_tabler.Tasks.Model.{
  raised, Status, failed, status_eq, Row, Attempt, Db, has_parent_id, row_of, child_of, is_lost,
  worker_lost_path,
}
use mathlib.Core.Option.{some-injective}
use smallstack_tabler.Tasks.Env.{Env}
use smallstack_tabler.Tasks.Decide.{Decision, decide, classify}
use smallstack_tabler.Tasks.Retry.{maybe_retry, next_attempt, retry_of}
use smallstack_tabler.Tasks.Retry.Cases.{enqueue_retry-cases, maybe_retry-cases}
use smallstack_tabler.Tasks.Retry.Once.{maybe_retry-IsInert}
use smallstack_tabler.Tasks.Late.{record_late_completion, is_unfinished}
use smallstack_tabler.Tasks.Late.Laws.{NoLostChild, mark_superseded_only_lost}
use smallstack_tabler.Tasks.Signals.{
  Sender, warning, error, from_database_worker, retry_failed_task, log_task_outcome,
}

NoLostChild-of_childless :
    (i : ℕ) (xs : List Attempt) → any_row (has_parent_id i) xs ≡ false → All (NoLostChild i) xs
unfolding any_row
NoLostChild-of_childless i [] h = tt
NoLostChild-of_childless i (x ∷ xs) h = (λ t. cc, NoLostChild-of_childless i xs (ground arith))

record_late_completion-only_lost :
    (i now : ℕ) (db : Db)
    → All (NoLostChild i) db.attempts
    → record_late_completion i now db ≡ (none, db)
unfolding record_late_completion
record_late_completion-only_lost i now db h = elim (Option-cases (row_of i db)) [
  | inl e ↦ rw (e, record_late_completion)
  | inr (row, e) ↦ elim (Bool-cases (is_unfinished row.status)) [
    | inl f ↦ rw (e, f, record_late_completion)
    | inr f ↦ rw (e, f, record_late_completion) (mark_superseded_only_lost i _ _ _ now db h)
  ]
]

decide-raised :
    (env : Env) (db : Db) (row : Row) (d : Decision)
    → str_eq row.exception_class_path worker_lost_path ≡ false
    → decide env db row raised ≡ some d
    → is_lost d.cause ≡ false
unfolding decide classify
decide-raised env db row d h e = ground arith

maybe_retry-NoLostChild :
    (env : Env) (i now : ℕ) (db : Db) (row : Row)
    → row_of i db ≡ some row
    → str_eq row.exception_class_path worker_lost_path ≡ false
    → All (NoLostChild i) db.attempts
    → All (NoLostChild i) (maybe_retry env i raised now db).1.attempts
unfolding next_attempt
maybe_retry-NoLostChild env i now db row found path h =
    maybe_retry-cases (λ r. All (NoLostChild i) r.1.attempts) env i raised now db h
      λ row' d found' dec.
        enqueue_retry-cases (λ r. All (NoLostChild i) r.1.attempts) row' d now db env h h
          λ new at _ _ _.
            let same : row' ≡ row = some-injective row' row (sym found' ∙ found) in
            All-append (NoLostChild i) db.attempts (next_attempt row' d new.id now ∷ []) h (
              (λ _.
                  decide-raised env db row' d
                    (ap (λ (r : Row). str_eq r.exception_class_path worker_lost_path) same ∙ path)
                    dec),
              tt,
            )

-- A delivery for an attempt whose retry is on record, made for another cause than a reap, is a no-op.
retried_delivery :
    (env : Env) (sender : Sender) (i : ℕ) (status : Status) (now : ℕ) (db : Db)
    → All (NoLostChild i) db.attempts
    → any_row (has_parent_id i) db.attempts ≡ true
    → retry_failed_task env sender i status now db ≡ db
unfolding retry_failed_task
retried_delivery env sender i status now db h child =
    let late = record_late_completion-only_lost i now db h in
    let inert = (maybe_retry-IsInert env i raised now db child).same in
    elim (Bool-cases (not (from_database_worker sender false).0)) [
      | inl f ↦ rw (f, retry_failed_task)
      | inr f ↦ elim (Bool-cases (status_eq status failed)) [
        | inl g ↦ rw (f, late, g, retry_failed_task) inert
        | inr g ↦ rw (f, late, g, retry_failed_task)
      ]
    ]

first_delivery :
    (env : Env) (sender : Sender) (i : ℕ) (status : Status) (now : ℕ) (db : Db) (row : Row)
    → row_of i db ≡ some row
    → str_eq row.exception_class_path worker_lost_path ≡ false
    → All (NoLostChild i) db.attempts
    → All (NoLostChild i) (retry_failed_task env sender i status now db).attempts
unfolding retry_failed_task
first_delivery env sender i status now db row found path h =
    let late = record_late_completion-only_lost i now db h in
    elim (Bool-cases (not (from_database_worker sender false).0)) [
      | inl f ↦ rw (f, retry_failed_task) h
      | inr f ↦ elim (Bool-cases (status_eq status failed)) [
        | inl g ↦
            rw (f, late, g, retry_failed_task)
              (maybe_retry-NoLostChild env i now db row found path h)
        | inr g ↦ rw (f, late, g, retry_failed_task) h
      ]
    ]

-- A task that failed by itself and had no retry: if delivering its signal enqueued one, a second
-- delivery changes nothing, so the retry is neither taken for a late completion nor cancelled.
pub retry_failed_task_twice :
    (env env' : Env) (sender sender' : Sender) (i : ℕ) (status status' : Status) (now now' : ℕ)
    (db : Db) (row : Row)
    → row_of i db ≡ some row
    → str_eq row.exception_class_path worker_lost_path ≡ false
    → any_row (has_parent_id i) db.attempts ≡ false
    → any_row (has_parent_id i) (retry_failed_task env sender i status now db).attempts ≡ true
    → retry_failed_task env' sender' i status' now' (retry_failed_task env sender i status now db)
      ≡ retry_failed_task env sender i status now db
retry_failed_task_twice env env' sender sender' i status status' now now' db row found path
      childless child =
    retried_delivery env' sender' i status' now' _
      (first_delivery env sender i status now db row found path
        (NoLostChild-of_childless i db.attempts childless))
      child

-- A failed attempt is logged as a warning exactly when softening is on and a retry of it is on
-- record, and a failed one is otherwise an error.
pub log_task_outcome-failed :
    (soften : Bool) (i : ℕ) (db : Db)
    → log_task_outcome soften i failed db
      ≡ (if soften && any_row (has_parent_id i) db.attempts then warning else error)
unfolding log_task_outcome retry_of
log_task_outcome-failed soften i db = elim (Option-cases (child_of i db)) [
  | inl e ↦
      rw (e, any_row-eq-false (has_parent_id i) db.attempts e, log_task_outcome, retry_of)
        (ground arith)
  | inr (a, e) ↦
      rw (e, any_row-find (has_parent_id i) db.attempts a e, log_task_outcome, retry_of)
        (ground arith)
]
