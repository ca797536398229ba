-- ===== src/Tests/Reaped.antt =====
-- A queue whose worker died, and the theorems on the reaper, late completions and chains at it.
use smallstack_tabler.Prelude.{
  ◌+◌, ◌≡◌, refl, true, false, none, some, [], ◌∷◌, arith, any_row, find, seconds, All,
  update_where,
}
use smallstack_tabler.Tasks.Model.{
  Status, ready, running, successful, failed, Cause, raised, lost, Row, Attempt, Heartbeat, Db,
  recorded, exited, retry_superseded_path, is_bookkeeping, is_interrupted, row_of,
}
use smallstack_tabler.Tasks.Policy.{attempts, delay_base, delay, get_policy, policy_for}
use smallstack_tabler.Tasks.Decide.{
  attempt_info, classify, issubclass, matches, chain_policy, is_retryable, decide,
}
use smallstack_tabler.Tasks.Retry.{
  retried, create_attempt, next_attempt, record_retry, enqueue_retry, maybe_retry,
}
use smallstack_tabler.Tasks.Retry.Invariant.{IsWf}
use smallstack_tabler.Tasks.Retry.Once.{IsInert}
use smallstack_tabler.Tasks.Late.{
  LateCompletion, is_reaped_child, mark, supersede, mark_superseded, record_late_completion,
}
use smallstack_tabler.Tasks.Late.Laws.{
  mark_superseded_once, mark_superseded_started, mark_superseded_only_lost,
}
use smallstack_tabler.Tasks.Late.Cancelled.{mark_superseded-cancelled}
use smallstack_tabler.Tasks.Chain.{ChainOutcome, engine, chain_outcome, chain_status, walk, turn}
use smallstack_tabler.Tasks.Chain.Walk.{Descends, IsLatest, chain_outcome-IsLatest}
use smallstack_tabler.Tasks.Reaper.{
  ReaperSettings, LostTask, lost_race, find_lost_tasks, reap_lost_tasks, fail_lost, reap_one,
  reaped_row,
}
use smallstack_tabler.Tasks.Reaper.Verdicts.{IsFound, find_lost_tasks-IsFound}
use smallstack_tabler.Tasks.Reaper.Reap.{reap_one-noticed, reap_one-finished}
use smallstack_tabler.Tasks.Reaper.Pass.{reap_lost_tasks-IsWf}
use smallstack_tabler.Tasks.Heartbeat.{beat, Thread, run}
use smallstack_tabler.Tasks.Heartbeat.Spared.{IsOther, find_lost_tasks-beat}
use smallstack_tabler.Tasks.Heartbeat.Yielding.{failures, any_true, run-failures}
use smallstack_tabler.Tests.Tasks.{sample_call, sample_env, sample_laws, failed_row, failed_db}

abbrev running_row : Row
running_row = record failed_row {
  status = running;
  finished_at = none;
  exception_class_path = "";
  traceback = recorded "";
}

abbrev running_db : Db
running_db = record { rows = running_row ∷ []; attempts = []; heartbeats = [] }

running_db-IsWf : IsWf running_db
unfolding any_row
running_db-IsWf = record {
  unique_rows = (refl, tt);
  unique_results = tt;
  unique_parents = tt;
  in_budget = tt;
}

abbrev lost_task : LostTask
lost_task = record {
  result_id = 1;
  task_path = "shop.tasks.send_receipt";
  worker_id = "w";
  reason = exited "w" "host" none 25;
}

-- The attempt came back after its reap.
abbrev back : Row
back = record failed_row { status = successful; exception_class_path = ""; traceback = recorded "" }

abbrev later_db : Db
later_db = record (reap_one sample_env lost_task 40 running_db).1 { rows = back ∷ [] }

retries_lost : (maybe_retry sample_env 1 lost 40 (fail_lost lost_task 40 running_db)).0 ≡ retried 2
unfolding fail_lost update_where maybe_retry enqueue_retry record_retry create_attempt next_attempt
    delay delay_base decide is_bookkeeping is_interrupted classify attempt_info policy_for
    get_policy chain_policy attempts is_retryable matches issubclass any_row find
retries_lost = refl

reap_one-noticed_example :
    (l : LateCompletion) × ((record_late_completion 1 60 later_db).0 ≡ some l)
    × (l.parent_id ≡ 1)
    × (l.retry_id ≡ 2)
    × (l.status ≡ successful)
unfolding any_row find
reap_one-noticed_example =
    reap_one-noticed sample_env lost_task 40 60 running_db later_db 2 back running_db-IsWf refl
      retries_lost refl refl refl

reap_one-finished_example : reap_one sample_env lost_task 40 failed_db ≡ (lost_race, failed_db)
unfolding any_row
reap_one-finished_example = reap_one-finished sample_env lost_task 40 failed_db refl

-- The queue after the reap: the lost attempt, and its retry, which is READY.
abbrev retry_row : Status → Row
retry_row s = record {
  id = 2;
  status = s;
  call = sample_call;
  enqueued_at = 40;
  started_at = none;
  finished_at = none;
  worker_ids = [];
  return_value = none;
  exception_class_path = "";
  traceback = recorded "";
}

abbrev retry_attempt : Cause → Attempt
retry_attempt c = record {
  result_id = 2;
  root_id = 1;
  parent_id = some 1;
  attempt = 2;
  cause = c;
  max_attempts = none;
  created_at = 40;
  parent_completed_at = none;
  parent_status = none;
  retry_cancelled = false;
}

abbrev retried_db : Status → Cause → Db
retried_db s c = record {
  rows = reaped_row 40 lost_task.reason running_row ∷ retry_row s ∷ [];
  attempts = retry_attempt c ∷ [];
  heartbeats = [];
}

retried_db-IsWf : (s : Status) (c : Cause) → IsWf (retried_db s c)
unfolding any_row
retried_db-IsWf s c = record {
  unique_rows = (refl, (refl, tt));
  unique_results = (refl, tt);
  unique_parents = (refl, tt);
  in_budget = (omega arith, tt);
}

abbrev late : LateCompletion
late = record {
  parent_id = 1;
  retry_id = 2;
  task_path = "shop.tasks.send_receipt";
  status = successful;
  retry_cancelled = true;
}

marks :
    (mark_superseded 1 successful "shop.tasks.send_receipt" 30 60 (retried_db ready lost)).0
    ≡ some late
unfolding mark_superseded supersede mark is_reaped_child update_where any_row find
marks = refl

mark_superseded-cancelled_example :
    IsInert
      (mark_superseded 1 successful "shop.tasks.send_receipt" 30 60 (retried_db ready lost)).1
      (maybe_retry sample_env 2 raised 70
        (mark_superseded 1 successful "shop.tasks.send_receipt" 30 60 (retried_db ready lost)).1)
mark_superseded-cancelled_example =
    mark_superseded-cancelled sample_env raised 70 1 successful "shop.tasks.send_receipt" 30 60
      (retried_db ready lost) late (retried_db-IsWf ready lost) marks refl

mark_superseded_once_example :
    mark_superseded 1 failed "shop.tasks.send_receipt" 31 61
      (mark_superseded 1 successful "shop.tasks.send_receipt" 30 60 (retried_db ready lost)).1
    ≡ (
      none,
      (mark_superseded 1 successful "shop.tasks.send_receipt" 30 60 (retried_db ready lost)).1,
    )
mark_superseded_once_example =
    mark_superseded_once 1 successful failed "shop.tasks.send_receipt" "shop.tasks.send_receipt" 30
      31 60 61 (retried_db ready lost)

mark_superseded_started_example :
    row_of 2
      (mark_superseded 1 successful "shop.tasks.send_receipt" 30 60 (retried_db running lost)).1
    ≡ some (retry_row running)
unfolding find
mark_superseded_started_example =
    mark_superseded_started 1 successful "shop.tasks.send_receipt" 30 60 2 (retried_db running lost)
      (retry_row running) refl (λ e. cc)

mark_superseded_only_lost_example :
    mark_superseded 1 failed "shop.tasks.send_receipt" 30 60 (retried_db ready raised)
    ≡ (none, retried_db ready raised)
mark_superseded_only_lost_example =
    mark_superseded_only_lost 1 failed "shop.tasks.send_receipt" 30 60 (retried_db ready raised)
      ((λ e. refl), tt)

abbrev superseded_row : Row
superseded_row = record (retry_row failed) { exception_class_path = retry_superseded_path }

abbrev superseded_db : Db
superseded_db = record (retried_db ready lost) { rows = superseded_row ∷ [] }

abbrev outcome : ChainOutcome
outcome = record {
  status = engine ready;
  row = retry_row ready;
  attempt = 2;
  executed_more_than_once = false;
  superseded_attempt = none;
  superseded_status = none;
  resurrected_cancelled_retry = false;
}

follows : chain_outcome sample_env 1 50 (retried_db ready lost) ≡ some outcome
unfolding chain_outcome chain_status walk turn find any_row
follows = refl

chain_outcome-IsLatest_example :
    Descends (retried_db ready lost) 1 2 × IsLatest (retried_db ready lost) 2
unfolding attempt_info find
chain_outcome-IsLatest_example =
    chain_outcome-IsLatest sample_env 1 50 (retried_db ready lost) outcome
      (retried_db-IsWf ready lost) (omega arith, tt) (omega arith, tt) follows

abbrev settings : ReaperSettings
settings = record { lost_after = seconds 90; orphan = seconds 3600 }

abbrev sample_heartbeat : Heartbeat
sample_heartbeat = record {
  worker_id = "w";
  label = "w";
  hostname = "host";
  pid = some 7;
  queues = "default";
  last_seen_at = seconds 5;
  stopped_at = none;
}

find_lost_tasks-IsFound_example :
    All
      (IsFound settings ("v" ∷ []) (seconds 4000) (seconds 4000) running_db)
      (find_lost_tasks settings ("v" ∷ []) (seconds 4000) (seconds 4000) running_db).1
find_lost_tasks-IsFound_example =
    find_lost_tasks-IsFound settings ("v" ∷ []) (seconds 4000) (seconds 4000) running_db

abbrev yielding : Thread
yielding = record { reap_every = 4; missed_beats = 1; beats = 3 }

run-failures_example :
    (any_true (run (failures 3) yielding).0 ≡ false)
    × ((run (failures 3) yielding).1.missed_beats ≡ 1 + 3)
run-failures_example = run-failures 3 yielding (omega arith)

reap_lost_tasks-IsWf_example :
    IsWf
      (reap_lost_tasks sample_env settings
        (λ rs. rs)
        []
        false
        (seconds 4000)
        (seconds 4000)
        running_db).1
reap_lost_tasks-IsWf_example =
    reap_lost_tasks-IsWf sample_laws settings (λ rs. rs) [] false (seconds 4000) (seconds 4000)
      running_db running_db-IsWf

abbrev beating_db : Db
beating_db = record running_db { heartbeats = sample_heartbeat ∷ [] }

find_lost_tasks-beat_example :
    All
      (IsOther "w" (beat "w" (seconds 60) beating_db))
      (find_lost_tasks settings [] (seconds 140) (seconds 140) (beat "w" (seconds 60) beating_db)).1
unfolding find
find_lost_tasks-beat_example =
    find_lost_tasks-beat settings [] beating_db "w" sample_heartbeat (seconds 60) (seconds 140)
      (seconds 140) refl refl (omega arith)
