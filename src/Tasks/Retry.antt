-- ===== src/Tasks/Retry.antt =====
-- apps/tasks/reliability.py: enqueueing the next attempt (`maybe_retry`, `pin_max_attempts`).
pub mod Cases
pub mod Invariant
pub mod Once
use smallstack_tabler.Prelude.{
  ℕ, ◌+◌, Bool, true, false, not, Option, none, some, List, [], ◌∷◌, ◌++◌, ◌||◌, any_row, find,
  update_where, if◌then◌else◌,
}
use smallstack_tabler.Tasks.Model.{
  Cause, first, Row, Attempt, Db, same_result, same_parent, has_result_id, row_of, child_of,
}
use smallstack_tabler.Tasks.Policy.{delay}
use smallstack_tabler.Tasks.Env.{Env}
use smallstack_tabler.Tasks.Decide.{Decision, decide}

-- The id of the retry, `None`, or an exception that leaves the call.
pub data Retry : Type 0 where
  retried : ℕ → Retry
  not_retried : Retry
  raised : Retry

-- `TaskAttempt.objects.create(...)`: `none` is the IntegrityError of a unique constraint.
unfoldable pub create_attempt : Attempt → List Attempt → Option (List Attempt)
create_attempt a rows =
    if any_row (λ b. same_result b a) rows || any_row (λ b. same_parent b a) rows
    then none
    else some (rows ++ a ∷ [])

-- The attempt row of a retry.
unfoldable pub next_attempt : Row → Decision → ℕ → ℕ → Attempt
next_attempt row d new now = record {
  result_id = new;
  root_id = d.info.root_id;
  parent_id = some row.id;
  attempt = d.info.attempt + 1;
  cause = d.cause;
  max_attempts = d.info.max_attempts;
  created_at = now;
  parent_completed_at = none;
  parent_status = none;
  retry_cancelled = false;
}

-- The `atomic()` block: the new row and its attempt row are written together or not at all.
unfoldable pub record_retry : Row → Decision → Row → ℕ → Db → Retry × Db
record_retry row d new now db = elim (create_attempt (next_attempt row d new.id now) db.attempts) [
  | none ↦ (not_retried, db)
  | some attempts ↦ (retried new.id, record db { rows = db.rows ++ new ∷ []; attempts = attempts })
]

-- The part of `maybe_retry` behind the decision, which another process may have made stale.
unfoldable pub enqueue_retry : Env → Row → Decision → ℕ → Db → Retry × Db
enqueue_retry env row d now db =
    if not (env.resolves row.call.task_path)
    then (raised, db)
    else (let at = now + delay env.settings env.uniform d.policy d.info.attempt in
        elim (env.enqueue row.call at now db) [
          | none ↦ (raised, db)
          | some new ↦ record_retry row d new now db
        ])

unfoldable pub maybe_retry : Env → ℕ → Cause → ℕ → Db → Retry × Db
maybe_retry env i cause now db = elim (row_of i db) [
  | none ↦ (not_retried, db)
  | some row ↦ elim (decide env db row cause) [
    | none ↦ (not_retried, db)
    | some d ↦ enqueue_retry env row d now db
  ]
]

-- `pin_max_attempts`: an update, or a new first attempt.
unfoldable pub pin_max_attempts : ℕ → ℕ → ℕ → Db → Db
pin_max_attempts i m now db =
    if any_row (has_result_id i) db.attempts
    then record db {
      attempts =
          update_where (has_result_id i)
            (λ a. record a { root_id = i; attempt = 1; max_attempts = some m }) db.attempts;
    }
    else record db {
      attempts =
          db.attempts
          ++ record {
            result_id = i;
            root_id = i;
            parent_id = none;
            attempt = 1;
            cause = first;
            max_attempts = some m;
            created_at = now;
            parent_completed_at = none;
            parent_status = none;
            retry_cancelled = false;
          }
            ∷ [];
    }

-- `retry_of`.
unfoldable pub retry_of : ℕ → Db → Option ℕ
retry_of i db = elim (child_of i db) [ none ↦ none | some a ↦ some a.result_id ]
