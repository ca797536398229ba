-- ===== src/Tasks/Retry/Once.antt =====
-- apps/tasks/reliability.py: a second retry of one attempt.
use smallstack_tabler.Prelude.{
  ℕ, ◌≡◌, ◌≢◌, refl, sym, true, false, arith, any_row, find-test, ==→eq, ◌∙◌, any_row-append, ◌∷◌,
  [],
}
use smallstack_tabler.Tasks.Model.{Cause, Row, Db, has_parent_id, has_row_id}
use smallstack_tabler.Tasks.Env.{Env}
use smallstack_tabler.Tasks.Decide.{Decision}
use smallstack_tabler.Tasks.Retry.{
  Retry, retried, not_retried, raised, next_attempt, enqueue_retry, maybe_retry,
}
use smallstack_tabler.Tasks.Retry.Cases.{enqueue_retry-cases, maybe_retry-cases}

-- Nothing was retried, and nothing was written.
pub record IsInert (db : Db) (r : Retry × Db) : Type 0 where
  pub same : r.1 ≡ db
  pub no_retry : (k : ℕ) → r.0 ≢ retried k

pub not_retried-IsInert : (db : Db) → IsInert db (not_retried, db)
not_retried-IsInert db = record { same = refl; no_retry = λ k e. cc }

pub raised-IsInert : (db : Db) → IsInert db (raised, db)
raised-IsInert db = record { same = refl; no_retry = λ k e. cc }

-- A second retry of one attempt fails on the unique parent, whoever decided it and on what data.
pub enqueue_retry-IsInert :
    (env : Env) (row : Row) (d : Decision) (now : ℕ) (db : Db)
    → any_row (has_parent_id row.id) db.attempts ≡ true
    → IsInert db (enqueue_retry env row d now db)
unfolding next_attempt
enqueue_retry-IsInert env row d now db h =
    enqueue_retry-cases (IsInert db) row d now db env (raised-IsInert db) (not_retried-IsInert db)
      λ new at _ _ n. absurd (true_false (sym h ∙ n.parent))
  where
    true_false : true ≡ false → ⊥
    true_false e = cc

pub maybe_retry-IsInert :
    (env : Env) (i : ℕ) (cause : Cause) (now : ℕ) (db : Db)
    → any_row (has_parent_id i) db.attempts ≡ true
    → IsInert db (maybe_retry env i cause now db)
maybe_retry-IsInert env i cause now db h =
    maybe_retry-cases (IsInert db) env i cause now db (not_retried-IsInert db) λ row d e _.
      let same : row.id ≡ i = ==→eq row.id i (find-test (has_row_id i) db.rows row e) in
      enqueue_retry-IsInert env row d now db (rw same h)

-- What a retry leaves behind: a child of the attempt, at the end of the table.
pub retried-has_child :
    (env : Env) (i : ℕ) (cause : Cause) (now : ℕ) (db : Db) (j : ℕ)
    → (maybe_retry env i cause now db).0 ≡ retried j
    → any_row (has_parent_id i) (maybe_retry env i cause now db).1.attempts ≡ true
unfolding any_row next_attempt
retried-has_child env i cause now db j =
    maybe_retry-cases (λ r. r.0 ≡ retried j → any_row (has_parent_id i) r.1.attempts ≡ true) env i
      cause now db (λ e. cc)
      λ row d e _.
        enqueue_retry-cases (λ r. r.0 ≡ retried j → any_row (has_parent_id i) r.1.attempts ≡ true)
          row d now db env (λ e. cc) (λ e. cc)
          λ new at _ _ n _. ground (
            arith,
            any_row-append (has_parent_id i) db.attempts (next_attempt row d new.id now ∷ []),
            find-test (has_row_id i) db.rows row e,
          )

-- Once a call has retried an attempt, no later call retries it again or writes anything, whatever
-- its cause, its clock, the policies it reads and the queue it writes to.
pub retry_once :
    (env env' : Env) (i : ℕ) (cause cause' : Cause) (now now' : ℕ) (db : Db) (j : ℕ)
    → (maybe_retry env i cause now db).0 ≡ retried j
    → IsInert
        (maybe_retry env i cause now db).1
        (maybe_retry env' i cause' now' (maybe_retry env i cause now db).1)
retry_once env env' i cause cause' now now' db j h =
    maybe_retry-IsInert env' i cause' now' (maybe_retry env i cause now db).1
      (retried-has_child env i cause now db j h)
