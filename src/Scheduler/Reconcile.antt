-- ===== src/Scheduler/Reconcile.antt =====
-- apps/scheduler/services.py: `reconcile_run_outcomes`, which settles the queued runs whose chains of
-- attempts are finished. Runs are kept newest first.
pub mod Kept
pub mod Expected
pub mod Settled
use smallstack_tabler.Prelude.{
  ℕ, zero, suc, ◌+◌, Bool, true, false, not, ◌&&◌, Option, none, some, List, [], ◌∷◌, ◌++◌, ltb,
  ◌==◌, is_none, any_row, update_where, if◌then◌else◌,
}
use smallstack_tabler.Tasks.Model.{Row, Db, successful}
use smallstack_tabler.Tasks.Model as Queue
use smallstack_tabler.Tasks.Env.{Env}
use smallstack_tabler.Tasks.Chain.{
  ChainStatus, engine, ChainOutcome, double_execution_note, chain_outcome,
}
use smallstack_tabler.Scheduler.Tick.{
  RunStatus, success, failed, of_run, ScheduledJob, ScheduledJobRun, State, outcome, has_job_id,
  is_queued,
}

-- `notify` is the mail task that `_notify_failure` enqueues: `none` without recipients, or if the
-- queue refuses it.
pub record ReconcileEnv : Type 0 where
  pub tasks_env : Env
  pub notify : ScheduledJobRun → ℕ → Db → Option Row

-- `filter(status=QUEUED).exclude(task_result_id="")`.
abbrev pub is_reconcilable : ScheduledJobRun → Bool
is_reconcilable r = is_queued r.status && not (is_none r.task_result_id)

-- `terminal`.
abbrev pub terminal : ChainStatus → Option RunStatus
terminal (engine successful) = some success
terminal (engine Queue.failed) = some failed
terminal _ = none

-- `_engine_result`.
unfoldable pub engine_result : Env → Option ℕ → ℕ → Db → Option ChainOutcome
engine_result env none now db = none
engine_result env (some i) now db = chain_outcome env i now db

-- `run.status = new`, `run.message = ...`.
unfoldable pub promote : RunStatus → ChainOutcome → ScheduledJobRun → ScheduledJobRun
promote new o run = record run {
  status = new;
  message = outcome o.row o.attempt (double_execution_note o);
}

-- `filter(job_id=run.job_id, created_at__gt=run.created_at)`, over columns that no call changes.
abbrev pub is_newer : ScheduledJobRun → ScheduledJobRun → Bool
is_newer run r = r.job_id == run.job_id && ltb run.created_at r.created_at

-- The update of the job's `last_status`, by its latest run only.
unfoldable pub reflect :
    List ScheduledJobRun → ScheduledJobRun → RunStatus → List ScheduledJob → List ScheduledJob
reflect all run new jobs =
    if any_row (is_newer run) all
    then jobs
    else update_where (has_job_id run.job_id) (λ j. record j { last_status = of_run new }) jobs

abbrev pub add_row : Option Row → Db → Db
add_row none db = db
add_row (some row) db = record db { rows = db.rows ++ row ∷ [] }

-- `if new == FAILED: _notify_failure(run)`.
unfoldable pub notify_failure : ReconcileEnv → RunStatus → ScheduledJobRun → ℕ → Db → Db
notify_failure env failed run now db = add_row (env.notify run now db) db
notify_failure env _ run now db = db

-- What the loop has so far: the runs it went over, the jobs, the queue and `updated`.
pub record Progress : Type 0 where
  pub runs : List ScheduledJobRun
  pub jobs : List ScheduledJob
  pub tasks : Db
  pub updated : ℕ

-- One turn on a run, by the terminal status of its chain.
unfoldable pub settle :
    Option RunStatus
    → ReconcileEnv
    → ℕ
    → List ScheduledJobRun
    → ChainOutcome
    → ScheduledJobRun
    → List ScheduledJob
    → Db
    → Progress
settle none env now all o run jobs db = record {
  runs = run ∷ [];
  jobs = jobs;
  tasks = db;
  updated = 0;
}
settle (some new) env now all o run jobs db = record {
  runs = promote new o run ∷ [];
  jobs = reflect all run new jobs;
  tasks = notify_failure env new (promote new o run) now db;
  updated = 1;
}

unfoldable pub reconcile_run :
    ReconcileEnv → ℕ → List ScheduledJobRun → ScheduledJobRun → List ScheduledJob → Db → Progress
reconcile_run env now all run jobs db =
    elim (engine_result env.tasks_env run.task_result_id now db) [
      | none ↦ record { runs = run ∷ []; jobs = jobs; tasks = db; updated = 0 }
      | some o ↦ settle (terminal o.status) env now all o run jobs db
    ]

-- The loop over the first `limit` reconcilable rows. The other rows stay as they are.
unfoldable pub reconcile_runs :
    ReconcileEnv
    → ℕ
    → List ScheduledJobRun
    → ℕ
    → List ScheduledJobRun
    → List ScheduledJob
    → Db
    → Progress
reconcile_runs env now all limit [] jobs db = record {
  runs = [];
  jobs = jobs;
  tasks = db;
  updated = 0;
}
reconcile_runs env now all zero (r ∷ rs) jobs db = record {
  runs = r ∷ rs;
  jobs = jobs;
  tasks = db;
  updated = 0;
}
reconcile_runs env now all (suc n) (r ∷ rs) jobs db = elim (is_reconcilable r) [
  | false ↦
      (let rest = reconcile_runs env now all (suc n) rs jobs db in
        record rest { runs = r ∷ rest.runs })
  | true ↦
      (let one = reconcile_run env now all r jobs db in
        let rest = reconcile_runs env now all n rs one.jobs one.tasks in
        record rest { runs = one.runs ++ rest.runs; updated = one.updated + rest.updated })
]

unfoldable pub reconcile_run_outcomes : ReconcileEnv → ℕ → ℕ → State → ℕ × State
reconcile_run_outcomes env now limit s =
    let p = reconcile_runs env now s.runs limit s.runs s.jobs s.tasks in
    (p.updated, record { runs = p.runs; jobs = p.jobs; tasks = p.tasks })
