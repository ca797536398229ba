-- ===== src/Tasks/Retry/Invariant.antt =====
-- apps/tasks/reliability.py: the invariant of the tables, and retries, on stale decisions too.
use smallstack_tabler.Prelude.{
  ℕ, ◌+◌, ◌≤◌, ◌≡◌, refl, Option, none, some, [], ◌∷◌, arith, any_row, any_row-false, Unique,
  Unique-snoc, All, All-append, Bool-cases, Option-cases, inl, inr, find-All, Unique-update_where,
  All-update_where,
}
use smallstack_tabler.Tasks.Model.{
  Cause, Row, Attempt, Db, same_row, same_result, same_parent, has_result_id, attempt_of,
}
use smallstack_tabler.Tasks.Env.{Env, QueueLaws}
use smallstack_tabler.Tasks.Decide.{Decision, attempt_info, decide}
use smallstack_tabler.Tasks.Retry.Cases.{
  NoClash, with_retry, enqueue_retry-cases, maybe_retry-cases,
}
use smallstack_tabler.Tasks.Retry.{next_attempt, enqueue_retry, maybe_retry, pin_max_attempts}

-- An attempt number counts from 1 and never passes the budget that its chain was pinned to.
abbrev pub Within : Option ℕ → ℕ → Type 0
Within none n = 1 ≤ n
Within (some m) n = (1 ≤ n) × (n ≤ m)

abbrev pub InBudget : Attempt → Type 0
InBudget a = Within a.max_attempts a.attempt

pub record IsWf (db : Db) : Type 0 where
  pub unique_rows : Unique same_row db.rows
  pub unique_results : Unique same_result db.attempts
  pub unique_parents : Unique same_parent db.attempts
  pub in_budget : All InBudget db.attempts

-- A decision leaves room for one more attempt.
abbrev pub IsSound : Decision → Type 0
IsSound d = Within d.info.max_attempts (d.info.attempt + 1)

-- Adding a row that no other clashes with.
with_retry-IsWf :
    {env : Env} (q : QueueLaws env) (row : Row) (d : Decision) (now : ℕ) (db : Db) (new : Row)
    (at : ℕ)
    → env.enqueue row.call at now db ≡ some new
    → NoClash (next_attempt row d new.id now) db
    → IsSound d
    → IsWf db
    → IsWf (with_retry row d new now db)
unfolding next_attempt
with_retry-IsWf q row d now db new at e n sound w =
    let a = next_attempt row d new.id now in
    record {
      unique_rows =
          Unique-snoc same_row db.rows new w.unique_rows (q.new_row row.call at now db new e);
      unique_results = Unique-snoc same_result db.attempts a w.unique_results n.result;
      unique_parents = Unique-snoc same_parent db.attempts a w.unique_parents n.parent;
      in_budget = All-append InBudget db.attempts (a ∷ []) w.in_budget (sound, tt);
    }

pub enqueue_retry-IsWf :
    {env : Env} (q : QueueLaws env) (row : Row) (d : Decision) (now : ℕ) (db : Db)
    → IsSound d
    → IsWf db
    → IsWf (enqueue_retry env row d now db).1
enqueue_retry-IsWf {env} q row d now db sound w =
    enqueue_retry-cases (λ r. IsWf r.1) row d now db env w w
      λ new at e _ n. with_retry-IsWf q row d now db new at e n sound w

pub attempt_info-Within :
    (i : ℕ) (db : Db)
    → IsWf db
    → Within (attempt_info i db).max_attempts (attempt_info i db).attempt
unfolding attempt_info
attempt_info-Within i db w = elim (Option-cases (attempt_of i db)) [
  | inl e ↦ rw (e, attempt_info) (omega arith)
  | inr (a, e) ↦
      rw (e, attempt_info) (find-All InBudget (has_result_id i) db.attempts a w.in_budget e)
]

pub decide-IsSound :
    (env : Env) (db : Db) (row : Row) (cause : Cause) (d : Decision)
    → IsWf db
    → decide env db row cause ≡ some d
    → IsSound d
unfolding decide
decide-IsSound env db row cause d w e = ground (arith, attempt_info-Within row.id db w)

-- With a queue that keeps its laws, `maybe_retry` keeps the tables well formed: unique ids, one
-- retry for an attempt, budgets kept.
pub maybe_retry-IsWf :
    {env : Env} (q : QueueLaws env) (i : ℕ) (cause : Cause) (now : ℕ) (db : Db)
    → IsWf db
    → IsWf (maybe_retry env i cause now db).1
maybe_retry-IsWf {env} q i cause now db w =
    maybe_retry-cases (λ r. IsWf r.1) env i cause now db w
      λ row d _ e. enqueue_retry-IsWf q row d now db (decide-IsSound env db row cause d w e) w

-- Pinning a budget of at least one attempt to a chain keeps the tables well formed.
pub pin_max_attempts-IsWf :
    (i m now : ℕ) (db : Db) → 1 ≤ m → IsWf db → IsWf (pin_max_attempts i m now db)
unfolding pin_max_attempts
pin_max_attempts-IsWf i m now db h w = elim (Bool-cases (any_row (has_result_id i) db.attempts)) [
  | inl old ↦
      rw (old, pin_max_attempts)
        (record {
          unique_rows = w.unique_rows;
          unique_results =
              Unique-update_where same_result (has_result_id i) _ db.attempts (λ x y. ground arith)
                w.unique_results;
          unique_parents =
              Unique-update_where same_parent (has_result_id i) _ db.attempts (λ x y. ground arith)
                w.unique_parents;
          in_budget =
              All-update_where InBudget (has_result_id i) _ db.attempts (λ x b. ground arith)
                w.in_budget;
        })
  | inr new ↦
      rw (new, pin_max_attempts)
        (record {
          unique_rows = w.unique_rows;
          unique_results = Unique-snoc same_result db.attempts _ w.unique_results new;
          unique_parents =
              Unique-snoc same_parent db.attempts _ w.unique_parents
                (any_row-false _ db.attempts λ x. refl);
          in_budget = All-append InBudget db.attempts _ w.in_budget ((omega arith, h), tt);
        })
]
