-- ===== src/Scheduler/Reconcile/Kept.antt =====
-- apps/scheduler/services.py: the chains that reconciliation follows, beside the mails that it enqueues.
use smallstack_tabler.Prelude.{
  ℕ, zero, suc, ◌≡◌, refl, ap, ◌∙◌, Option, none, some, [], ◌∷◌, ◌++◌, Option-cases, inl, inr,
  find-append-some,
}
use smallstack_tabler.Tasks.Model.{Row, Db, has_row_id, row_of}
use smallstack_tabler.Tasks.Env.{Env}
use smallstack_tabler.Tasks.Decide.{decide, attempt_info}
use smallstack_tabler.Tasks.Chain.{
  Cursor, Turn, stop, go_on, start, turn, walk, max_chain, ChainOutcome, chain_status,
  chain_outcome,
}
use smallstack_tabler.Scheduler.Tick.{RunStatus, queued, skipped, success, failed, ScheduledJobRun}
use smallstack_tabler.Scheduler.Reconcile.{ReconcileEnv, engine_result, add_row, notify_failure}

-- A new row of the queue leaves the chains as they are.
abbrev more_rows : Row → Db → Db
more_rows row db = record db { rows = db.rows ++ row ∷ [] }

turn-rows : (row : Row) (db : Db) (c : Cursor) → turn (more_rows row db) c ≡ turn db c
unfolding turn
turn-rows row db c = refl

follow :
    (f g : Cursor → Cursor)
    → ((d : Cursor) → f d ≡ g d)
    → (t : Turn) → elim t [ stop d ↦ d | go_on d ↦ f d ] ≡ elim t [ stop d ↦ d | go_on d ↦ g d ]
follow f g h (stop d) = refl
follow f g h (go_on d) = h d

walk-rows : (n : ℕ) (row : Row) (db : Db) (c : Cursor) → walk n (more_rows row db) c ≡ walk n db c
unfolding walk
walk-rows zero row db c = refl
walk-rows (suc n) row db c =
    ap (λ t. elim t [ stop d ↦ d | go_on d ↦ walk n (more_rows row db) d ]) (turn-rows row db c)
    ∙ follow (walk n (more_rows row db)) (walk n db) (walk-rows n row db) (turn db c)

chain_status-rows :
    (env : Env) (db : Db) (now : ℕ) (new row : Row)
    → chain_status env (more_rows new db) now row ≡ chain_status env db now row
unfolding chain_status decide attempt_info
chain_status-rows env db now new row = refl

chain_outcome-rows :
    (env : Env) (i now : ℕ) (new row : Row) (db : Db)
    → row_of (walk max_chain db (start i)).current db ≡ some row
    → chain_outcome env i now (more_rows new db) ≡ chain_outcome env i now db
unfolding chain_outcome
chain_outcome-rows env i now new row db e =
    rw
      (
        walk-rows max_chain new db (start i),
        find-append-some (has_row_id (walk max_chain db (start i)).current) db.rows (new ∷ []) row
            e,
        e,
        walk-rows max_chain new db (start i),
        chain_status-rows env db now new row,
        chain_outcome,
      )
      refl

-- What is known of a chain is known of it in `db'` too.
unfoldable pub Keeps : Env → ℕ → Db → Db → Type 0
Keeps env now db db' =
    (i : Option ℕ) (o : ChainOutcome)
    → engine_result env i now db ≡ some o
    → engine_result env i now db' ≡ some o

more_rows-Keeps : (env : Env) (now : ℕ) (row : Row) (db : Db) → Keeps env now db (more_rows row db)
unfolding Keeps engine_result chain_outcome
more_rows-Keeps env now row db none o h = h
more_rows-Keeps env now row db (some i) o h =
    elim (Option-cases (row_of (walk max_chain db (start i)).current db)) [
      | inl e ↦ let missing : chain_outcome env i now db ≡ none = rw (e, chain_outcome) refl in cc
      | inr (r, e) ↦ chain_outcome-rows env i now row r db e ∙ h
    ]

add_row-Keeps :
    (env : Env) (now : ℕ) (row : Option Row) (db : Db) → Keeps env now db (add_row row db)
unfolding Keeps
add_row-Keeps env now none db i o h = h
add_row-Keeps env now (some row) db i o h = more_rows-Keeps env now row db i o h

pub notify_failure-Keeps :
    (env : ReconcileEnv) (new : RunStatus) (run : ScheduledJobRun) (now : ℕ) (db : Db)
    → Keeps env.tasks_env now db (notify_failure env new run now db)
unfolding Keeps notify_failure
notify_failure-Keeps env failed run now db i o h =
    add_row-Keeps env.tasks_env now (env.notify run now db) db i o h
notify_failure-Keeps env queued run now db i o h = h
notify_failure-Keeps env skipped run now db i o h = h
notify_failure-Keeps env success run now db i o h = h

pub Keeps-trans :
    (env : Env) (now : ℕ) (a b c : Db) → Keeps env now a b → Keeps env now b c → Keeps env now a c
unfolding Keeps
Keeps-trans env now a b c f g i o h = g i o (f i o h)
