-- ===== src/Tasks/Late/Cancelled.antt =====
-- apps/tasks/reliability.py: the cancelled retry of a late completion.
use smallstack_tabler.Prelude.{
  ℕ, ◌≡◌, refl, ◌∙◌, ap, true, not, String, none, some, arith, any_row, find, Bool-cases,
  Option-cases, inl, inr, Unique-update_where, All-update_where, find-update_where,
}
use smallstack_tabler.Tasks.Model.{
  Cause, Status, ready, status_eq, Row, Db, has_row_id, has_parent_id, row_of, same_row,
  same_result, same_parent, retry_superseded_path, is_bookkeeping,
}
use smallstack_tabler.Tasks.Model.Keys.{find-keyed}
use smallstack_tabler.Tasks.Env.{Env}
use smallstack_tabler.Tasks.Decide.{decide}
use smallstack_tabler.Tasks.Retry.{maybe_retry}
use smallstack_tabler.Tasks.Retry.Once.{IsInert, not_retried-IsInert}
use smallstack_tabler.Tasks.Retry.Invariant.{IsWf, InBudget}
use smallstack_tabler.Tasks.Late.{
  LateCompletion, is_reaped_child, is_ready_row, cancelled_row, mark, cancel_ready, flag_cancelled,
  supersede, mark_superseded,
}

decide-bookkeeping :
    (env : Env) (db : Db) (row : Row) (cause : Cause)
    → row.exception_class_path ≡ retry_superseded_path
    → decide env db row cause ≡ none
unfolding decide is_bookkeeping
decide-bookkeeping env db row cause h =
    let is : is_bookkeeping row.exception_class_path ≡ true = rw h refl in
    elim (Bool-cases (not (status_eq row.status Status.failed))) [
      | inl f ↦ rw (f, decide)
      | inr f ↦ rw (f, is, decide)
    ]

-- A row that records a cancellation is never retried: the call writes nothing.
pub maybe_retry-bookkeeping :
    (env : Env) (i : ℕ) (cause : Cause) (now : ℕ) (db : Db) (row : Row)
    → row_of i db ≡ some row
    → row.exception_class_path ≡ retry_superseded_path
    → IsInert db (maybe_retry env i cause now db)
unfolding maybe_retry
maybe_retry-bookkeeping env i cause now db row e h =
    rw (e, decide-bookkeeping env db row cause h, maybe_retry) (not_retried-IsInert db)

cancel_facts :
    (parent : ℕ) (status : Status) (path : String) (at now child : ℕ) (db : Db) (l : LateCompletion)
    → (supersede parent status path at now child db).0 ≡ some l
    → l.retry_cancelled ≡ true
    → (any_row (is_reaped_child parent) db.attempts ≡ true)
      × (any_row (is_ready_row child) db.rows ≡ true)
      × (l.retry_id ≡ child)
unfolding supersede mark
cancel_facts parent status path at now child db l e c = ground arith

-- A row whose id the cancel names holds the bookkeeping path afterwards.
cancelled_row_of :
    (parent : ℕ) (status : Status) (path : String) (at now child : ℕ) (db : Db)
    → IsWf db
    → any_row (is_reaped_child parent) db.attempts ≡ true
    → any_row (is_ready_row child) db.rows ≡ true
    → (r : Row) × (row_of child (supersede parent status path at now child db).1 ≡ some r)
      × (r.exception_class_path ≡ retry_superseded_path)
unfolding supersede mark cancel_ready flag_cancelled
cancelled_row_of parent status path at now child db w h g =
    let (r, e, t) = find-keyed (λ x. status_eq x.status ready) child db.rows w.unique_rows g in
    let f = cancelled_row parent status now in
    (
      f r,
      rw (h, g, supersede)
          (find-update_where (has_row_id child) (is_ready_row child) f db.rows (λ x. ground arith)
            ∙ rw e (ap some (rw t refl))),
      refl,
    )

-- In well formed tables, the retry that marking a late completion has cancelled is not retried: a
-- call for it, whatever its cause and time, writes nothing.
pub mark_superseded-cancelled :
    (env : Env) (cause : Cause) (now' : ℕ) (parent : ℕ) (status : Status) (path : String)
    (at now : ℕ) (db : Db) (l : LateCompletion)
    → IsWf db
    → (mark_superseded parent status path at now db).0 ≡ some l
    → l.retry_cancelled ≡ true
    → IsInert
        (mark_superseded parent status path at now db).1
        (maybe_retry env l.retry_id cause now' (mark_superseded parent status path at now db).1)
unfolding mark_superseded
mark_superseded-cancelled env cause now' parent status path at now db l w =
    elim (Option-cases (find (is_reaped_child parent) db.attempts)) [
      | inl f ↦ rw (f, mark_superseded) (λ e _. cc)
      | inr (a, f) ↦
          rw (f, mark_superseded)
            λ e c.
              let (h, g, same) = cancel_facts parent status path at now a.result_id db l e c in
              let (r, found, is) =
                cancelled_row_of parent status path at now a.result_id db w h g in
              rw same (maybe_retry-bookkeeping env a.result_id cause now' _ r found is)
    ]

mark-IsWf : (p : ℕ) (s : Status) (t : ℕ) (db : Db) → IsWf db → IsWf (mark p s t db)
unfolding mark
mark-IsWf p s t db w = record {
  unique_rows = w.unique_rows;
  unique_results =
      Unique-update_where same_result (is_reaped_child p) _ db.attempts (λ x y. ground arith)
        w.unique_results;
  unique_parents =
      Unique-update_where same_parent (is_reaped_child p) _ db.attempts (λ x y. ground arith)
        w.unique_parents;
  in_budget =
      All-update_where InBudget (is_reaped_child p) _ db.attempts (λ x b. ground arith) w.in_budget;
}

flag_cancelled-IsWf : (p : ℕ) (db : Db) → IsWf db → IsWf (flag_cancelled p db)
unfolding flag_cancelled
flag_cancelled-IsWf p db w = record {
  unique_rows = w.unique_rows;
  unique_results =
      Unique-update_where same_result (has_parent_id p) _ db.attempts (λ x y. ground arith)
        w.unique_results;
  unique_parents =
      Unique-update_where same_parent (has_parent_id p) _ db.attempts (λ x y. ground arith)
        w.unique_parents;
  in_budget =
      All-update_where InBudget (has_parent_id p) _ db.attempts (λ x b. ground arith) w.in_budget;
}

cancel_ready-IsWf :
    (p : ℕ) (s : Status) (c t : ℕ) (db : Db) → IsWf db → IsWf (cancel_ready p s c t db)
unfolding cancel_ready
cancel_ready-IsWf p s c t db w = record {
  unique_rows =
      Unique-update_where same_row (is_ready_row c) _ db.rows (λ x y. ground arith) w.unique_rows;
  unique_results = w.unique_results;
  unique_parents = w.unique_parents;
  in_budget = w.in_budget;
}

supersede-IsWf :
    (parent : ℕ) (status : Status) (path : String) (at now child : ℕ) (db : Db)
    → IsWf db
    → IsWf (supersede parent status path at now child db).1
unfolding supersede
supersede-IsWf parent status path at now child db w =
    elim (Bool-cases (not (any_row (is_reaped_child parent) db.attempts))) [
      | inl f ↦ rw (f, supersede) w
      | inr f ↦ elim (Bool-cases (any_row (is_ready_row child) (mark parent status at db).rows)) [
        | inl g ↦
            rw (f, g, supersede)
              (flag_cancelled-IsWf parent _
                (cancel_ready-IsWf parent status child now _ (mark-IsWf parent status at db w)))
        | inr g ↦ rw (f, g, supersede) (mark-IsWf parent status at db w)
      ]
    ]

-- Marking a late completion, with the cancelling of its retry, keeps the tables well formed.
pub mark_superseded-IsWf :
    (parent : ℕ) (status : Status) (path : String) (at now : ℕ) (db : Db)
    → IsWf db
    → IsWf (mark_superseded parent status path at now db).1
unfolding mark_superseded
mark_superseded-IsWf parent status path at now db w =
    elim (Option-cases (find (is_reaped_child parent) db.attempts)) [
      | inl f ↦ rw (f, mark_superseded) w
      | inr (a, f) ↦
          rw (f, mark_superseded) (supersede-IsWf parent status path at now a.result_id db w)
    ]
