-- ===== src/Tests/Reconcile.antt =====
-- A queued run whose task has returned, and the theorem on reconciliation at it.
use smallstack_tabler.Prelude.{
  ◌≡◌, refl, true, none, some, [], ◌∷◌, map, arith, All, find, count_where,
}
use smallstack_tabler.Tasks.Model.{successful, Db}
use smallstack_tabler.Tasks.Chain.{turn, walk, chain_status, chain_outcome}
use smallstack_tabler.Tasks.Decide.{decide}
use smallstack_tabler.Scheduler.Tick.{
  ScheduledJobRun, queued, skipped, State, no_message, previous_run_still_active,
}
use smallstack_tabler.Scheduler.Reconcile.{ReconcileEnv, reconcile_run_outcomes}
use smallstack_tabler.Scheduler.Reconcile.Expected.{
  waits, standing, promoted, is_finished, is_known,
}
use smallstack_tabler.Scheduler.Reconcile.Settled.{reconcile_run_outcomes-promoted}
use smallstack_tabler.Tests.Tasks.{sample_env, failed_row, failed_db}
use smallstack_tabler.Tests.Scheduler.{sample_job}

abbrev returned_db : Db
returned_db = record failed_db { rows = record failed_row { status = successful } ∷ [] }

abbrev queued_run : ScheduledJobRun
queued_run = record {
  job_id = 1;
  status = queued;
  scheduled_for = 10;
  created_at = 10;
  task_result_id = some 1;
  message = no_message;
}

abbrev skipped_run : ScheduledJobRun
skipped_run = record queued_run {
  status = skipped;
  task_result_id = none;
  message = previous_run_still_active;
}

abbrev two_runs : State
two_runs = record {
  jobs = sample_job ∷ [];
  runs = skipped_run ∷ queued_run ∷ [];
  tasks = returned_db;
}

abbrev mailing : ReconcileEnv
mailing = record { tasks_env = sample_env; notify = λ run now db. none }

two_runs-known : All (λ r. is_known sample_env 50 returned_db r ≡ true) two_runs.runs
unfolding waits standing chain_outcome walk turn find chain_status decide
two_runs-known = (refl, (refl, tt))

two_runs-count : count_where waits two_runs.runs ≡ 1
unfolding count_where waits
two_runs-count = refl

settles : count_where (is_finished sample_env 50 returned_db) two_runs.runs ≡ 1
unfolding count_where is_finished waits standing chain_outcome walk turn find chain_status decide
settles = refl

reconcile_run_outcomes-promoted_example :
    ((reconcile_run_outcomes mailing 50 200 two_runs).1.runs
      ≡ map (promoted sample_env 50 returned_db) two_runs.runs)
    × ((reconcile_run_outcomes mailing 50 200 two_runs).0
        ≡ count_where (is_finished sample_env 50 returned_db) two_runs.runs)
reconcile_run_outcomes-promoted_example =
    reconcile_run_outcomes-promoted mailing 50 200 two_runs two_runs-known
      (omega (arith, two_runs-count))
