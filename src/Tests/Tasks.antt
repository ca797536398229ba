-- ===== src/Tests/Tasks.antt =====
-- A queue with one failed task, and the theorems on retries, late completions and chains at it.
use smallstack_tabler.Prelude.{
  ℕ, suc, ◌≡◌, ◌≤◌, ◌/◌, refl, true, ◌||◌, Option, none, some, [], ◌∷◌, arith, any_row, find,
  str_eq, length, pos, if◌then◌else◌,
}
use smallstack_tabler.Tasks.Model.{
  ready, failed, raised, lost, Call, Row, Db, recorded, has_row_id, has_result_id, has_parent_id,
  is_bookkeeping, is_interrupted,
}
use smallstack_tabler.Tasks.Policy.{
  default_policy, attempts, delay_base, delay, get_policy, policy_for,
}
use smallstack_tabler.Tasks.Policy.Bounds.{delay_bounds}
use smallstack_tabler.Tasks.Env.{Env, QueueLaws, class}
use smallstack_tabler.Tasks.Decide.{
  attempt_info, classify, issubclass, matches, chain_policy, is_retryable, decide,
}
use smallstack_tabler.Tasks.Retry.{
  retried, create_attempt, next_attempt, record_retry, enqueue_retry, maybe_retry, pin_max_attempts,
}
use smallstack_tabler.Tasks.Retry.Invariant.{IsWf, maybe_retry-IsWf, pin_max_attempts-IsWf}
use smallstack_tabler.Tasks.Retry.Once.{IsInert, retry_once}
use smallstack_tabler.Tasks.Late.{
  is_reaped_child, mark_superseded, supersede, record_late_completion,
}
use smallstack_tabler.Tasks.Signals.{database_backend, from_database_worker, retry_failed_task}
use smallstack_tabler.Tasks.Signals.Delivery.{retry_failed_task_twice}

abbrev pub sample_call : Call
sample_call = record {
  task_path = "shop.tasks.send_receipt";
  queue_name = "default";
  priority = pos 0;
  backend_name = "default";
  args = "7" ∷ [];
  kwargs = [];
}

-- The next free id, unless something refers to it already.
abbrev pub sample_enqueue : Call → ℕ → ℕ → Db → Option Row
sample_enqueue c at now db =
    let i = suc (length db.rows) in
    if any_row (has_row_id i) db.rows
      || any_row (has_result_id i) db.attempts
      || any_row (has_parent_id i) db.attempts
    then none
    else some (record {
      id = i;
      status = ready;
      call = c;
      enqueued_at = now;
      started_at = none;
      finished_at = none;
      worker_ids = [];
      return_value = none;
      exception_class_path = "";
      traceback = recorded "";
    })

abbrev pub sample_env : Env
sample_env = record {
  settings = record {
    default_max_attempts = 3;
    backoff_default = 1000000;
    backoff_max_default = 8000000;
  };
  uniform = λ b. b;
  policies = [];
  importing = λ path ps. ps;
  import_class = λ path. class "Exception";
  subclass = str_eq;
  resolves = λ path. true;
  enqueue = sample_enqueue;
}

pub sample_laws : QueueLaws sample_env
sample_laws = record {
  is_ready = λ c at now db r e. ground arith;
  has_call = λ c at now db r e. ground arith;
  new_row = λ c at now db r e. ground arith;
  new_result = λ c at now db r e. ground arith;
  new_parent = λ c at now db r e. ground arith;
}

-- A task that raised on its first attempt.
abbrev pub failed_row : Row
failed_row = record {
  id = 1;
  status = failed;
  call = sample_call;
  enqueued_at = 10;
  started_at = some 20;
  finished_at = some 30;
  worker_ids = "w" ∷ [];
  return_value = none;
  exception_class_path = "shop.errors.Unreachable";
  traceback = recorded "boom";
}

abbrev pub failed_db : Db
failed_db = record { rows = failed_row ∷ []; attempts = []; heartbeats = [] }

pub failed_db-IsWf : IsWf failed_db
unfolding any_row
failed_db-IsWf = record {
  unique_rows = (refl, tt);
  unique_results = tt;
  unique_parents = tt;
  in_budget = tt;
}

retries : (maybe_retry sample_env 1 raised 40 failed_db).0 ≡ retried 2
unfolding maybe_retry enqueue_retry record_retry create_attempt next_attempt delay delay_base decide
    is_bookkeeping is_interrupted classify attempt_info policy_for get_policy chain_policy attempts
    is_retryable matches issubclass any_row find
retries = refl

retry_once_example :
    IsInert
      (maybe_retry sample_env 1 raised 40 failed_db).1
      (maybe_retry sample_env 1 lost 50 (maybe_retry sample_env 1 raised 40 failed_db).1)
retry_once_example = retry_once sample_env sample_env 1 raised lost 40 50 failed_db 2 retries

maybe_retry-IsWf_example : IsWf (maybe_retry sample_env 1 raised 40 failed_db).1
maybe_retry-IsWf_example = maybe_retry-IsWf sample_laws 1 raised 40 failed_db failed_db-IsWf

pin_max_attempts-IsWf_example : IsWf (pin_max_attempts 1 3 40 failed_db)
pin_max_attempts-IsWf_example = pin_max_attempts-IsWf 1 3 40 failed_db (omega arith) failed_db-IsWf

delay_bounds_example :
    (delay_base sample_env.settings default_policy 2 / 2
      ≤ delay sample_env.settings (λ b. b) default_policy 2)
    × (delay sample_env.settings (λ b. b) default_policy 2
        ≤ delay_base sample_env.settings default_policy 2)
    × (delay sample_env.settings (λ b. b) default_policy 2 ≤ 8000000)
delay_bounds_example = delay_bounds sample_env.settings (λ b. b) default_policy 2 (λ b. omega arith)

signalled :
    any_row
      (has_parent_id 1)
      (retry_failed_task sample_env database_backend 1 failed 40 failed_db).attempts
    ≡ true
unfolding retry_failed_task from_database_worker record_late_completion mark_superseded supersede
    is_reaped_child maybe_retry enqueue_retry record_retry create_attempt next_attempt delay
    delay_base decide is_bookkeeping is_interrupted classify attempt_info policy_for get_policy
    chain_policy attempts is_retryable matches issubclass any_row find
signalled = refl

retry_failed_task_twice_example :
    retry_failed_task sample_env database_backend 1 failed 50
      (retry_failed_task sample_env database_backend 1 failed 40 failed_db)
    ≡ retry_failed_task sample_env database_backend 1 failed 40 failed_db
unfolding any_row find
retry_failed_task_twice_example =
    retry_failed_task_twice sample_env sample_env database_backend database_backend 1 failed failed
      40 50 failed_db failed_row refl refl refl signalled
