-- ===== src/Tasks/Retry/Cases.antt =====
-- The outcomes of a retry as elimination rules: what `enqueue_retry` and `maybe_retry` can return.
use smallstack_tabler.Prelude.{
  ℕ, ◌+◌, ◌≡◌, refl, false, some, [], ◌∷◌, ◌++◌, ◌||◌, arith, any_row, Bool-cases, Option-cases,
  inl, inr,
}
use smallstack_tabler.Tasks.Model.{Cause, Row, Attempt, Db, same_result, same_parent, row_of}
use smallstack_tabler.Tasks.Policy.{delay}
use smallstack_tabler.Tasks.Env.{Env}
use smallstack_tabler.Tasks.Decide.{Decision, decide}
use smallstack_tabler.Tasks.Retry.{
  Retry, retried, not_retried, raised, create_attempt, next_attempt, record_retry, enqueue_retry,
  maybe_retry,
}

-- The tables after a retry.
abbrev pub with_retry : Row → Decision → Row → ℕ → Db → Db
with_retry row d new now db = record db {
  rows = db.rows ++ new ∷ [];
  attempts = db.attempts ++ next_attempt row d new.id now ∷ [];
}

-- No attempt row has the result or the parent of the new one.
pub record NoClash (a : Attempt) (db : Db) : Type 0 where
  pub result : any_row (λ b. same_result b a) db.attempts ≡ false
  pub parent : any_row (λ b. same_parent b a) db.attempts ≡ false

pub NoClash-of :
    (a : Attempt) (db : Db)
    → (any_row (λ b. same_result b a) db.attempts || any_row (λ b. same_parent b a) db.attempts)
      ≡ false
    → NoClash a db
NoClash-of a db h = record { result = ground arith; parent = ground arith }

module _ (P : Retry × Db → Type 0) (row : Row) (d : Decision) (now : ℕ) (db : Db) where
  pub record_retry-cases :
      (new : Row)
      → P (not_retried, db)
      → (NoClash (next_attempt row d new.id now) db
          → P (retried new.id, with_retry row d new now db))
      → P (record_retry row d new now db)
  unfolding record_retry create_attempt
  record_retry-cases new lost won =
      let a = next_attempt row d new.id now in
      elim (Bool-cases (
        any_row (λ b. same_result b a) db.attempts || any_row (λ b. same_parent b a) db.attempts)) [
          | inl clash ↦ rw (clash, record_retry) lost
          | inr free ↦ rw (free, record_retry) (won (NoClash-of a db free))
        ]

  pub enqueue_retry-cases :
      (env : Env)
      → P (raised, db)
      → P (not_retried, db)
      → ((new : Row) (at : ℕ)
          → env.enqueue row.call at now db ≡ some new
          → at ≡ now + delay env.settings env.uniform d.policy d.info.attempt
          → NoClash (next_attempt row d new.id now) db
          → P (retried new.id, with_retry row d new now db))
      → P (enqueue_retry env row d now db)
  unfolding enqueue_retry
  enqueue_retry-cases env fault lost won =
      let at = now + delay env.settings env.uniform d.policy d.info.attempt in
      elim (Bool-cases (env.resolves row.call.task_path)) [
        | inr unresolved ↦ rw (unresolved, enqueue_retry) fault
        | inl resolved ↦ elim (Option-cases (env.enqueue row.call at now db)) [
          | inl e ↦ rw (resolved, e, enqueue_retry) fault
          | inr (new, e) ↦
              rw (resolved, e, enqueue_retry) (record_retry-cases new lost (won new at e refl))
        ]
      ]

pub maybe_retry-cases :
    (P : Retry × Db → Type 0) (env : Env) (i : ℕ) (cause : Cause) (now : ℕ) (db : Db)
    → P (not_retried, db)
    → ((row : Row) (d : Decision)
        → row_of i db ≡ some row
        → decide env db row cause ≡ some d
        → P (enqueue_retry env row d now db))
    → P (maybe_retry env i cause now db)
unfolding maybe_retry
maybe_retry-cases P env i cause now db lost go = elim (Option-cases (row_of i db)) [
  | inl e ↦ rw (e, maybe_retry) lost
  | inr (row, e) ↦ elim (Option-cases (decide env db row cause)) [
    | inl f ↦ rw (e, f, maybe_retry) lost
    | inr (d, f) ↦ rw (e, f, maybe_retry) (go row d e f)
  ]
]
