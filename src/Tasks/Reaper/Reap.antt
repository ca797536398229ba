-- ===== src/Tasks/Reaper/Reap.antt =====
-- apps/tasks/reaper.py: failing one lost task, when it has finished and when the verdict is
-- wrong.
use smallstack_tabler.Prelude.{
  ℕ, ◌≡◌, refl, sym, ◌∙◌, ap, subst, true, false, not, some, List, [], ◌∷◌, ◌++◌, arith, any_row,
  find, find-eq-none, find-append-none, Bool-cases, inl, inr, ==→eq, ==_refl, find-test,
  find-update_where, Unique-update_where, same_option, str_eq, any_row-find,
}
use smallstack_tabler.Tasks.Model.{
  Cause, lost, Row, Attempt, Db, has_row_id, row_of, same_row, same_parent, worker_lost_path,
}
use mathlib.Core.Option.{some-injective}
use smallstack_tabler.Tasks.Model.Keys.{find-keyed}
use smallstack_tabler.Tasks.Env.{Env, QueueLaws}
use smallstack_tabler.Tasks.Decide.{Decision, decide, classify}
use smallstack_tabler.Tasks.Retry.{retried, maybe_retry, next_attempt}
use smallstack_tabler.Tasks.Retry.Cases.{
  NoClash, with_retry, enqueue_retry-cases, maybe_retry-cases,
}
use smallstack_tabler.Tasks.Retry.Invariant.{IsWf, maybe_retry-IsWf}
use smallstack_tabler.Tasks.Late.{
  LateCompletion, is_reaped_child, is_unfinished, is_ready_row, mark, record_late_completion,
  mark_superseded, supersede,
}
use smallstack_tabler.Tasks.Reaper.{
  LostTask, lost_race, reap_one, fail_lost, is_running_row, reaped_row, is_running,
}

-- A task that is not RUNNING any more keeps its own result: the verdict is not written.
pub reap_one-finished :
    (env : Env) (t : LostTask) (now : ℕ) (db : Db)
    → any_row (is_running_row t.result_id) db.rows ≡ false
    → reap_one env t now db ≡ (lost_race, db)
unfolding reap_one
reap_one-finished env t now db h = rw (h, reap_one)

fail_lost-IsWf : (t : LostTask) (now : ℕ) (db : Db) → IsWf db → IsWf (fail_lost t now db)
unfolding fail_lost
fail_lost-IsWf t now db w = record {
  unique_rows =
      Unique-update_where same_row (is_running_row t.result_id) _ db.rows (λ x y. ground arith)
        w.unique_rows;
  unique_results = w.unique_results;
  unique_parents = w.unique_parents;
  in_budget = w.in_budget;
}

-- With a queue that keeps its laws, reaping one task keeps the tables well formed, whatever it
-- finds of the task.
pub reap_one-IsWf :
    {env : Env} (q : QueueLaws env) (t : LostTask) (now : ℕ) (db : Db)
    → IsWf db
    → IsWf (reap_one env t now db).1
unfolding reap_one
reap_one-IsWf {env} q t now db w =
    elim (Bool-cases (not (any_row (is_running_row t.result_id) db.rows))) [
      | inl f ↦ rw (f, reap_one) w
      | inr f ↦
          rw (f, reap_one)
            (maybe_retry-IsWf q t.result_id lost now (fail_lost t now db)
              (fail_lost-IsWf t now db w))
    ]

-- A failed row that carries the reaper's verdict is retried as lost, whoever asks.
decide-worker_lost :
    (env : Env) (db : Db) (row : Row) (cause : Cause) (d : Decision)
    → row.exception_class_path ≡ worker_lost_path
    → decide env db row cause ≡ some d
    → d.cause ≡ lost
unfolding decide classify
decide-worker_lost env db row cause d h e =
    let is : str_eq row.exception_class_path worker_lost_path ≡ true = rw h refl in ground arith

no_reaped_child :
    (i : ℕ) (xs : List Attempt)
    → any_row (λ b. same_option b.parent_id i) xs ≡ false
    → any_row (is_reaped_child i) xs ≡ false
unfolding any_row is_reaped_child
no_reaped_child i [] h = refl
no_reaped_child i (x ∷ xs) h = ground (arith, no_reaped_child i xs)

-- The retry of a lost attempt is the one that a late completion looks for.
find-reaped_child :
    (row : Row) (d : Decision) (new : ℕ) (now : ℕ) (db : Db)
    → any_row (λ b. same_parent b (next_attempt row d new now)) db.attempts ≡ false
    → d.cause ≡ lost
    → find (is_reaped_child row.id) (db.attempts ++ next_attempt row d new now ∷ [])
      ≡ some (next_attempt row d new now)
unfolding is_reaped_child next_attempt find
find-reaped_child row d new now db h c =
    find-append-none (is_reaped_child row.id) db.attempts _
      (find-eq-none (is_reaped_child row.id) db.attempts (no_reaped_child row.id db.attempts h))
    ∙ rw (==_refl row.id, c)

-- A child of `i` that a reap made and that nothing has marked yet, with the result id `j`.
abbrev pub HasReapedChild : ℕ → ℕ → Db → Type 0
HasReapedChild i j db =
    (a : Attempt) × (find (is_reaped_child i) db.attempts ≡ some a) × (a.result_id ≡ j)

failed_row :
    (t : LostTask) (now : ℕ) (db : Db) (row : Row)
    → any_row (is_running_row t.result_id) db.rows ≡ true
    → IsWf db
    → row_of t.result_id (fail_lost t now db) ≡ some row
    → (row.exception_class_path ≡ worker_lost_path) × (row.id ≡ t.result_id)
unfolding fail_lost
failed_row t now db row run w e =
    let (r, found, test) = find-keyed is_running t.result_id db.rows w.unique_rows run in
    let p = is_running_row t.result_id in
    let same : row ≡ reaped_row now t.reason r = some-injective row (reaped_row now t.reason r) (
      sym e
      ∙ find-update_where (has_row_id t.result_id) p (reaped_row now t.reason) db.rows
          (λ x. ground arith)
      ∙ rw found (ap some (rw test refl))) in
    (
      ap (λ (x : Row). x.exception_class_path) same,
      ==→eq row.id t.result_id (find-test (has_row_id t.result_id) (fail_lost t now db).rows row e),
    )

new_child :
    (env : Env) (t : LostTask) (now : ℕ) (db : Db) (j : ℕ) (row : Row) (d : Decision) (new : Row)
    → any_row (is_running_row t.result_id) db.rows ≡ true
    → IsWf db
    → row_of t.result_id (fail_lost t now db) ≡ some row
    → decide env (fail_lost t now db) row lost ≡ some d
    → NoClash (next_attempt row d new.id now) (fail_lost t now db)
    → retried new.id ≡ retried j
    → HasReapedChild t.result_id j (with_retry row d new now (fail_lost t now db))
unfolding next_attempt
new_child env t now db j row d new run w found dec n e =
    let (path, id) = failed_row t now db row run w found in
    let child = next_attempt row d new.id now in
    let it =
      find-reaped_child row d new.id now (fail_lost t now db) n.parent
        (decide-worker_lost env (fail_lost t now db) row lost d path dec) in
    (
      child,
      subst
          (λ k. find (is_reaped_child k) ((fail_lost t now db).attempts ++ child ∷ []) ≡ some child)
          id it,
      cc,
    )

reap_one-child :
    (env : Env) (t : LostTask) (now : ℕ) (db : Db) (j : ℕ)
    → (maybe_retry env t.result_id lost now (fail_lost t now db)).0 ≡ retried j
    → any_row (is_running_row t.result_id) db.rows ≡ true
    → IsWf db
    → HasReapedChild t.result_id j (maybe_retry env t.result_id lost now (fail_lost t now db)).1
reap_one-child env t now db j h run w =
    maybe_retry-cases (λ r. r.0 ≡ retried j → HasReapedChild t.result_id j r.1) env t.result_id lost
      now (fail_lost t now db) (λ e. cc)
      (λ row d found dec.
        enqueue_retry-cases (λ r. r.0 ≡ retried j → HasReapedChild t.result_id j r.1) row d now
          (fail_lost t now db) env (λ e. cc) (λ e. cc)
          λ new at _ _ n e. new_child env t now db j row d new run w found dec n e)
      h

late_from_child :
    (i now j : ℕ) (db : Db) (row : Row)
    → HasReapedChild i j db
    → row_of i db ≡ some row
    → is_unfinished row.status ≡ false
    → (l : LateCompletion) × ((record_late_completion i now db).0 ≡ some l)
      × (l.parent_id ≡ i)
      × (l.retry_id ≡ j)
      × (l.status ≡ row.status)
unfolding record_late_completion mark_superseded supersede
late_from_child i now j db row (a, e, same) r f =
    let marks : any_row (is_reaped_child i) db.attempts ≡ true =
      any_row-find (is_reaped_child i) db.attempts a e in
    (
      record {
        parent_id = i;
        retry_id = a.result_id;
        task_path = row.call.task_path;
        status = row.status;
        retry_cancelled = any_row (is_ready_row a.result_id) db.rows;
      },
      rw (r, f, e, marks, record_late_completion, mark_superseded, supersede) (unfold mark in refl),
      refl,
      same,
      refl,
    )

reap_one-maybe_retry :
    (env : Env) (t : LostTask) (now : ℕ) (db : Db)
    → any_row (is_running_row t.result_id) db.rows ≡ true
    → (reap_one env t now db).1 ≡ (maybe_retry env t.result_id lost now (fail_lost t now db)).1
unfolding reap_one
reap_one-maybe_retry env t now db h = rw (h, reap_one)

-- In well formed tables, a reaped attempt that completes after all is noticed: if the reap of a
-- RUNNING task enqueued the retry `j`, and later the row of that task is in a final state while
-- the attempt table is as the reap left it, then reporting it records a late completion which
-- names the task, its own status and `j`.
pub reap_one-noticed :
    (env : Env) (t : LostTask) (now now' : ℕ) (db later : Db) (j : ℕ) (row : Row)
    → IsWf db
    → any_row (is_running_row t.result_id) db.rows ≡ true
    → (maybe_retry env t.result_id lost now (fail_lost t now db)).0 ≡ retried j
    → later.attempts ≡ (reap_one env t now db).1.attempts
    → row_of t.result_id later ≡ some row
    → is_unfinished row.status ≡ false
    → (l : LateCompletion) × ((record_late_completion t.result_id now' later).0 ≡ some l)
      × (l.parent_id ≡ t.result_id)
      × (l.retry_id ≡ j)
      × (l.status ≡ row.status)
reap_one-noticed env t now now' db later j row w run h same found final =
    let (a, e, id) = reap_one-child env t now db j h run w in
    let table = same ∙ ap (λ (x : Db). x.attempts) (reap_one-maybe_retry env t now db run) in
    late_from_child t.result_id now' j later row
      (a, ap (find (is_reaped_child t.result_id)) table ∙ e, id) found final
