-- ===== src/Scheduler/Reconcile/Expected.antt =====
-- apps/scheduler/services.py: what is expected to become of a run.
use smallstack_tabler.Prelude.{
  ℕ, suc, ◌≤◌, ◌≡◌, refl, subst, ◌∙◌, Bool, true, false, not, ◌&&◌, ◌||◌, Option, none, some, List,
  ◌∷◌, Option-cases, inl, inr, is_none, if◌then◌else◌, count_where,
}
use smallstack_tabler.Tasks.Model.{Db, ready, running, successful}
use smallstack_tabler.Tasks.Model as Queue
use smallstack_tabler.Tasks.Env.{Env}
use smallstack_tabler.Tasks.Chain.{
  chain_outcome, ChainStatus, engine, retrying, ChainOutcome, double_execution_note,
}
use smallstack_tabler.Scheduler.Tick.{
  RunStatus, queued, skipped, is_queued, success, failed, outcome, ScheduledJobRun,
}
use smallstack_tabler.Scheduler.Reconcile.{is_reconcilable, engine_result}

-- A run that is settled: its status, and the row, the attempt and the note that its message quotes.
abbrev with_outcome : RunStatus → ChainOutcome → ScheduledJobRun → ScheduledJobRun
with_outcome status o r = record {
  job_id = r.job_id;
  status = status;
  scheduled_for = r.scheduled_for;
  created_at = r.created_at;
  task_result_id = r.task_result_id;
  message = outcome o.row o.attempt (double_execution_note o);
}

-- What becomes of a run whose chain has the given status: SUCCESSFUL is a success, FAILED a failure,
-- and READY, RUNNING and RETRYING leave it queued.
unfoldable pub settled : ChainStatus → ChainOutcome → ScheduledJobRun → ScheduledJobRun
settled (engine successful) o r = with_outcome success o r
settled (engine Queue.failed) o r = with_outcome failed o r
settled (engine ready) o r = r
settled (engine running) o r = r
settled retrying o r = r

abbrev pub is_final : ChainStatus → Bool
is_final (engine successful) = true
is_final (engine Queue.failed) = true
is_final _ = false

-- A queued run of which a task was enqueued.
unfoldable pub waits : ScheduledJobRun → Bool
waits r = elim r.status [
  | queued ↦ elim r.task_result_id [ none ↦ false | some i ↦ true ]
  | skipped ↦ false
  | success ↦ false
  | failed ↦ false
]

-- Where the chain of the run's task stands in the tables `db`.
unfoldable pub standing : Env → ℕ → Db → Option ℕ → Option ChainOutcome
standing env now db none = none
standing env now db (some i) = chain_outcome env i now db

-- What becomes of a run, by where its chain stands in the tables `db`.
unfoldable pub promoted : Env → ℕ → Db → ScheduledJobRun → ScheduledJobRun
promoted env now db r = elim (waits r) [
  | false ↦ r
  | true ↦ elim (standing env now db r.task_result_id) [ none ↦ r | some o ↦ settled o.status o r ]
]

-- A queued run whose chain is finished in the tables `db`.
unfoldable pub is_finished : Env → ℕ → Db → ScheduledJobRun → Bool
is_finished env now db r =
    waits r
    && elim (standing env now db r.task_result_id) [ none ↦ false | some o ↦ is_final o.status ]

-- The rows of a queued run's chain are not pruned.
abbrev pub is_known : Env → ℕ → Db → ScheduledJobRun → Bool
is_known env now db r = not (waits r) || not (is_none (standing env now db r.task_result_id))

pub is_reconcilable-waits : (r : ScheduledJobRun) → waits r ≡ is_reconcilable r
unfolding waits
is_reconcilable-waits r = by_parts r.status r.task_result_id
  where
    by_parts :
        (status : RunStatus) (o : Option ℕ)
        → elim status [
          | queued ↦ elim o [ none ↦ false | some i ↦ true ]
          | skipped ↦ false
          | success ↦ false
          | failed ↦ false
        ]
          ≡ (is_queued status && not (is_none o))
    by_parts queued none = refl
    by_parts queued (some i) = refl
    by_parts skipped o = refl
    by_parts success o = refl
    by_parts failed o = refl

pub engine_result-standing :
    (env : Env) (now : ℕ) (db : Db) (i : Option ℕ)
    → standing env now db i ≡ engine_result env i now db
unfolding standing engine_result
engine_result-standing env now db none = refl
engine_result-standing env now db (some i) = refl

pub promoted-known :
    (env : Env) (now : ℕ) (db : Db) (r : ScheduledJobRun) (o : ChainOutcome)
    → is_reconcilable r ≡ true
    → engine_result env r.task_result_id now db ≡ some o
    → promoted env now db r ≡ settled o.status o r
unfolding promoted
promoted-known env now db r o q e =
    rw
      (
        is_reconcilable-waits r ∙ q,
        engine_result-standing env now db r.task_result_id ∙ e,
        promoted,
      )
      refl

pub is_finished-known :
    (env : Env) (now : ℕ) (db : Db) (r : ScheduledJobRun) (o : ChainOutcome)
    → is_reconcilable r ≡ true
    → engine_result env r.task_result_id now db ≡ some o
    → is_finished env now db r ≡ is_final o.status
unfolding is_finished
is_finished-known env now db r o q e =
    rw
      (
        is_reconcilable-waits r ∙ q,
        engine_result-standing env now db r.task_result_id ∙ e,
        is_finished,
      )
      refl

pub promoted-other :
    (env : Env) (now : ℕ) (db : Db) (r : ScheduledJobRun)
    → is_reconcilable r ≡ false
    → (promoted env now db r ≡ r) × (is_finished env now db r ≡ false)
unfolding promoted is_finished
promoted-other env now db r q = (
  rw (is_reconcilable-waits r ∙ q, promoted) refl,
  rw (is_reconcilable-waits r ∙ q, is_finished) refl,
)

pub count-other :
    (r : ScheduledJobRun) (rs : List ScheduledJobRun) (n : ℕ)
    → is_reconcilable r ≡ false
    → count_where waits (r ∷ rs) ≤ n
    → count_where waits rs ≤ n
unfolding count_where
count-other r rs n q =
    subst (λ b. (if b then suc (count_where waits rs) else count_where waits rs) ≤ n)
      (is_reconcilable-waits r ∙ q)

pub count-queued :
    (r : ScheduledJobRun) (rs : List ScheduledJobRun) (n : ℕ)
    → is_reconcilable r ≡ true
    → count_where waits (r ∷ rs) ≤ n
    → suc (count_where waits rs) ≤ n
unfolding count_where
count-queued r rs n q =
    subst (λ b. (if b then suc (count_where waits rs) else count_where waits rs) ≤ n)
      (is_reconcilable-waits r ∙ q)

pub known-found :
    (env : Env) (now : ℕ) (db : Db) (r : ScheduledJobRun)
    → is_reconcilable r ≡ true
    → is_known env now db r ≡ true
    → (o : ChainOutcome) × (engine_result env r.task_result_id now db ≡ some o)
known-found env now db r q k = elim (Option-cases (engine_result env r.task_result_id now db)) [
  | inr (o, e) ↦ (o, e)
  | inl e ↦
      let no : is_known env now db r ≡ false =
        rw (is_reconcilable-waits r ∙ q, engine_result-standing env now db r.task_result_id, e)
          refl in
      cc
]
