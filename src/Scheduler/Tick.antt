-- ===== src/Scheduler/Tick.antt =====
-- apps/scheduler/services.py: one tick over the due jobs. Runs are kept newest first.
pub mod Claim
use smallstack_tabler.Prelude.{
  ℕ, zero, suc, ◌+◌, String, Bool, true, false, not, ◌&&◌, ◌||◌, Option, none, some, List, [], ◌∷◌,
  ◌++◌, leb, ltb, ◌==◌, same_option, is_none, any_row, find, filter_rows, update_where,
  if◌then◌else◌,
}
use smallstack_tabler.Tasks.Model.{Db, Row, ready, running}
use smallstack_tabler.Tasks.Env.{Env}
use smallstack_tabler.Tasks.Retry.{pin_max_attempts}
use smallstack_tabler.Tasks.Chain.{ChainStatus, engine, retrying, Note, chain_outcome}
use smallstack_tabler.Scheduler.Schedules.{
  Calendar, Schedule, Next, fires, never, config_error, next_run, missed_periods,
}

pub data CatchUp : Type 0 where
  run_once skip : CatchUp

pub data RunStatus : Type 0 where
  queued skipped success failed : RunStatus

-- `ScheduledJob.last_status`: blank, "invalid", or the status of a run.
pub data LastStatus : Type 0 where
  blank invalid : LastStatus
  of_run : RunStatus → LastStatus

pub record ScheduledJob : Type 0 where
  pub id : ℕ
  pub name : String
  pub task_path : String
  pub kwargs : List (String × String)
  pub queue_name : String
  pub schedule : Schedule
  pub enabled : Bool
  pub allow_overlap : Bool
  pub catch_up : CatchUp
  pub max_retries : ℕ
  pub next_run_at : Option ℕ
  pub last_enqueued_at : Option ℕ
  pub last_status : LastStatus
  pub total_runs : ℕ

-- What a run's message says. `outcome` has what reconciliation puts into it: the row whose return
-- value or traceback is summarized, the attempt's number and the note.
pub data Message : Type 0 where
  no_message previous_run_still_active task_path_unresolvable enqueue_failed : Message
  missed_runs : ℕ → Message
  outcome : Row → ℕ → Note → Message

pub record ScheduledJobRun : Type 0 where
  pub job_id : ℕ
  pub status : RunStatus
  pub scheduled_for : ℕ
  pub created_at : ℕ
  pub task_result_id : Option ℕ
  pub message : Message

-- The scheduler's tables, beside those of the queue.
pub record State : Type 0 where
  pub jobs : List ScheduledJob
  pub runs : List ScheduledJobRun
  pub tasks : Db

-- How `_enqueue` ends: an unresolvable path (ImportError, AttributeError, ValueError), another
-- exception, or a new row.
pub data Submitted : Type 0 where
  unresolvable : Submitted
  refused : Submitted
  enqueued : Row → Submitted

-- What the tick takes from outside. `stale_run` is `_stale_run_seconds()`, in microseconds.
pub record TickEnv : Type 0 where
  pub tasks_env : Env
  pub calendar : Calendar
  pub stale_run : ℕ
  pub enqueue_job : ScheduledJob → ℕ → Db → Submitted

pub record TickResult : Type 0 where
  pub enqueued_count : ℕ
  pub skipped_count : ℕ
  pub retired_count : ℕ
  pub errors : ℕ

abbrev pub has_job_id : ℕ → ScheduledJob → Bool
has_job_id i j = j.id == i

-- `filter(pk=job.pk).update(...)`.
unfoldable pub update_job : ℕ → (ScheduledJob → ScheduledJob) → State → State
update_job i f s = record s { jobs = update_where (has_job_id i) f s.jobs }

-- `_record`.
unfoldable pub record_run : ScheduledJob → RunStatus → ℕ → Option ℕ → Message → ℕ → State → State
record_run job status scheduled_for task_result_id message now s = record s {
  runs =
      record {
        job_id = job.id;
        status = status;
        scheduled_for = scheduled_for;
        created_at = now;
        task_result_id = task_result_id;
        message = message;
      }
      ∷ s.runs;
}

abbrev pub is_queued : RunStatus → Bool
is_queued queued = true
is_queued _ = false

-- A queued run of the job that has a task result.
abbrev pub is_enqueued_run : ℕ → ScheduledJobRun → Bool
is_enqueued_run i r = r.job_id == i && (is_queued r.status && not (is_none r.task_result_id))

-- `status in _UNFINISHED`.
abbrev pub is_unfinished_chain : ChainStatus → Bool
is_unfinished_chain (engine ready) = true
is_unfinished_chain (engine running) = true
is_unfinished_chain retrying = true
is_unfinished_chain _ = false

-- `_engine_status(...) in _UNFINISHED`.
unfoldable pub is_chain_active : Env → Option ℕ → ℕ → Db → Bool
is_chain_active env none now db = false
is_chain_active env (some i) now db = elim (chain_outcome env i now db) [
  | none ↦ false
  | some o ↦ is_unfinished_chain o.status
]

-- `_previous_run_active`.
unfoldable pub previous_run_active : TickEnv → ScheduledJob → ℕ → State → Bool
previous_run_active env job now s = elim (find (is_enqueued_run job.id) s.runs) [
  | none ↦ false
  | some last ↦
      if ltb (last.created_at + env.stale_run) now
      then false
      else is_chain_active env.tasks_env last.task_result_id now s.tasks
]

-- `if job.max_retries`: a budget is pinned onto the new chain.
abbrev pub pinned : ℕ → ℕ → ℕ → Db → Db
pinned zero i now db = db
pinned (suc n) i now db = pin_max_attempts i (suc n + 1) now db

abbrev pub enqueued_job : ℕ → ScheduledJob → ScheduledJob
enqueued_job now j = record j {
  last_enqueued_at = some now;
  last_status = of_run queued;
  total_runs = j.total_runs + 1;
}

-- `enqueue_and_record`, once `_enqueue` has given a row.
unfoldable pub enqueue_and_record : ScheduledJob → Row → ℕ → ℕ → State → State
unfolding record_run update_job
enqueue_and_record job row scheduled_for now s =
    let tasks =
      pinned job.max_retries row.id now (record s.tasks { rows = s.tasks.rows ++ row ∷ [] }) in
    update_job job.id (enqueued_job now) (
      record_run job queued scheduled_for (some row.id) no_message now (record s { tasks = tasks }))

-- The `fire` part of `_process_job_body`, with its two handlers, by the way `_enqueue` ended.
unfoldable pub finish_fire :
    Submitted → ScheduledJob → ℕ → ℕ → TickResult → State → TickResult × State
finish_fire (enqueued row) job observed now r s =
    (record r { enqueued_count = suc r.enqueued_count }, enqueue_and_record job row observed now s)
finish_fire unresolvable job observed now r s = (
  record r { errors = suc r.errors },
  update_job job.id (λ j. record j { enabled = false; last_status = invalid })
      (record_run job failed observed none task_path_unresolvable now s),
)
finish_fire refused job observed now r s = (
  record r { errors = suc r.errors },
  update_job job.id (λ j. record j { last_status = of_run failed })
      (record_run job failed observed none enqueue_failed now s),
)

unfoldable pub fire : TickEnv → ScheduledJob → ℕ → ℕ → TickResult → State → TickResult × State
fire env job observed now r s = finish_fire (env.enqueue_job job now s.tasks) job observed now r s

-- The catch-up policy, behind the overlap guard. A ScheduleConfigError of `missed_periods` leaves
-- the body and is counted by `run_due_jobs`.
unfoldable pub after_missed :
    Option ℕ → TickEnv → ScheduledJob → ℕ → ℕ → TickResult → State → TickResult × State
after_missed none env job observed now r s = (record r { errors = suc r.errors }, s)
after_missed (some missed) env job observed now r s =
    if leb 1 missed
    then (
      record r { skipped_count = suc r.skipped_count },
      record_run job skipped observed none (missed_runs missed) now s,
    )
    else fire env job observed now r s

unfoldable pub catch_up_or_fire :
    CatchUp → TickEnv → ScheduledJob → ℕ → ℕ → TickResult → State → TickResult × State
catch_up_or_fire run_once env job observed now r s = fire env job observed now r s
catch_up_or_fire skip env job observed now r s =
    after_missed (missed_periods env.calendar job.schedule observed now) env job observed now r s

unfoldable pub after_claim :
    TickEnv → ScheduledJob → ℕ → ℕ → TickResult → State → TickResult × State
after_claim env job observed now r s =
    if not job.allow_overlap && previous_run_active env job now s
    then (
      record r { skipped_count = suc r.skipped_count },
      record_run job skipped observed none previous_run_still_active now s,
    )
    else catch_up_or_fire job.catch_up env job observed now r s

-- `filter(pk=job.pk, next_run_at=observed)`.
abbrev pub is_claimable : ℕ → ℕ → ScheduledJob → Bool
is_claimable i observed j = has_job_id i j && same_option j.next_run_at observed

unfoldable pub claim : ℕ → ℕ → Option ℕ → State → State
claim i observed new_next s = record s {
  jobs = update_where (is_claimable i observed) (λ j. record j { next_run_at = new_next }) s.jobs;
}

abbrev pub count_retired : Option ℕ → TickResult → TickResult
count_retired none r = record r { retired_count = suc r.retired_count }
count_retired (some t) r = r

-- The atomic claim, and what only its winner does.
unfoldable pub claim_and_run :
    TickEnv → ScheduledJob → ℕ → Option ℕ → ℕ → TickResult → State → TickResult × State
claim_and_run env job observed new_next now r s =
    if not (any_row (is_claimable job.id observed) s.jobs)
    then (r, s)
    else after_claim env job observed now (count_retired new_next r)
        (claim job.id observed new_next s)

-- `_process_job_body` on the row `job` that the tick read.
unfoldable pub process_job : TickEnv → ScheduledJob → ℕ → TickResult → State → TickResult × State
process_job env job now r s = elim job.next_run_at [
  | none ↦ (r, s)
  | some observed ↦ elim (next_run env.calendar job.schedule now) [
    | config_error ↦ (
      record r { errors = suc r.errors },
      update_job job.id (λ j. record j { enabled = false; last_status = invalid }) s,
    )
    | never ↦ claim_and_run env job observed none now r s
    | fires t ↦ claim_and_run env job observed (some t) now r s
  ]
]

-- `enabled=True, next_run_at__isnull=False, next_run_at__lte=now`.
abbrev pub is_due : ℕ → ScheduledJob → Bool
is_due now j = j.enabled && elim j.next_run_at [ none ↦ false | some t ↦ leb t now ]

-- The loop of `run_due_jobs`, over the rows as the tick read them.
unfoldable pub process_jobs :
    TickEnv → ℕ → List ScheduledJob → TickResult → State → TickResult × State
process_jobs env now [] r s = (r, s)
process_jobs env now (j ∷ js) r s =
    let (r', s') = process_job env j now r s in process_jobs env now js r' s'

abbrev pub no_results : TickResult
no_results = record { enqueued_count = 0; skipped_count = 0; retired_count = 0; errors = 0 }

unfoldable pub run_due_jobs : TickEnv → ℕ → State → TickResult × State
run_due_jobs env now s = process_jobs env now (filter_rows (is_due now) s.jobs) no_results s
