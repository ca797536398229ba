-- ===== src/Tasks/Env.antt =====
-- What apps/tasks/reliability.py takes from outside: settings, imports, randomness and the queue.
use smallstack_tabler.Prelude.{ℕ, String, Bool, false, Option, some, ◌≡◌, any_row}
use smallstack_tabler.Tasks.Model.{Call, Row, Db, ready, has_row_id, has_result_id, has_parent_id}
use smallstack_tabler.Tasks.Policy.{Policies, RetrySettings}

-- What `import_string` makes of an exception path.
pub data Imported : Type 0 where
  unimportable : Imported
  no_class : Imported
  class : String → Imported

-- `importing` and `import_class` are `import_string`; `resolves` says that it gives a task.
-- `enqueue call run_after now db` is the row that the queue's backend inserts, `none` if it raises.
pub record Env : Type 0 where
  pub settings : RetrySettings
  pub uniform : ℕ → ℕ
  pub policies : Policies
  pub importing : String → Policies → Policies
  pub import_class : String → Imported
  pub subclass : String → String → Bool
  pub resolves : String → Bool
  pub enqueue : Call → ℕ → ℕ → Db → Option Row

-- What the queue documents: a new row is READY, has the call it was given, and its id is new.
pub record QueueLaws (env : Env) : Type 0 where
  pub is_ready :
      (c : Call) (at now : ℕ) (db : Db) (r : Row)
      → env.enqueue c at now db ≡ some r
      → r.status ≡ ready
  pub has_call :
      (c : Call) (at now : ℕ) (db : Db) (r : Row) → env.enqueue c at now db ≡ some r → r.call ≡ c
  pub new_row :
      (c : Call) (at now : ℕ) (db : Db) (r : Row)
      → env.enqueue c at now db ≡ some r
      → any_row (has_row_id r.id) db.rows ≡ false
  pub new_result :
      (c : Call) (at now : ℕ) (db : Db) (r : Row)
      → env.enqueue c at now db ≡ some r
      → any_row (has_result_id r.id) db.attempts ≡ false
  pub new_parent :
      (c : Call) (at now : ℕ) (db : Db) (r : Row)
      → env.enqueue c at now db ≡ some r
      → any_row (has_parent_id r.id) db.attempts ≡ false
