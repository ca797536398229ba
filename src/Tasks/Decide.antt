-- ===== src/Tasks/Decide.antt =====
-- apps/tasks/reliability.py: whether a failed attempt is retried (`_decide` and what it calls).
use smallstack_tabler.Prelude.{
  ℕ, String, Bool, false, not, ◌||◌, Option, none, some, List, [], ◌∷◌, leb, str_eq, or_else,
  is_none, if◌then◌else◌,
}
use smallstack_tabler.Tasks.Model.{
  Cause, lost, interrupted, failed, Row, Db, status_eq, attempt_of, worker_lost_path,
  is_bookkeeping, is_interrupted,
}
use smallstack_tabler.Tasks.Policy.{
  RetryPolicy, PolicyRef, declared, the_default, the_policy, implicit_pinned_policy, policy_for,
  attempts,
}
use smallstack_tabler.Tasks.Env.{Env, unimportable, no_class, class}

-- `AttemptInfo`, and `attempt_info(result_id)`.
pub record AttemptInfo : Type 0 where
  pub root_id : ℕ
  pub attempt : ℕ
  pub max_attempts : Option ℕ

unfoldable pub attempt_info : ℕ → Db → AttemptInfo
attempt_info i db = elim (attempt_of i db) [
  | none ↦ record { root_id = i; attempt = 1; max_attempts = none }
  | some a ↦ record { root_id = a.root_id; attempt = a.attempt; max_attempts = a.max_attempts }
]

-- `_classify`.
unfoldable pub classify : Row → Cause → Cause
classify row cause =
    if str_eq row.exception_class_path worker_lost_path
    then lost
    else if is_interrupted row.exception_class_path
    then interrupted
    else cause

-- `any(cls in (Exception, BaseException) for cls in retry_on)`.
unfoldable pub has_catch_all : List String → Bool
has_catch_all [] = false
has_catch_all (c ∷ cs) = str_eq c "Exception" || str_eq c "BaseException" || has_catch_all cs

-- `issubclass(exc_class, retry_on)`.
unfoldable pub issubclass : (String → String → Bool) → String → List String → Bool
issubclass subclass c [] = false
issubclass subclass c (r ∷ rs) = subclass c r || issubclass subclass c rs

-- `_matches`.
unfoldable pub matches : Env → String → List String → Bool
matches env path retry_on = elim (env.import_class path) [
  | unimportable ↦ has_catch_all retry_on
  | no_class ↦ false
  | class c ↦ issubclass env.subclass c retry_on
]

-- The policy of a chain: a pinned budget on a task with no policy of its own gets the careful one.
unfoldable pub chain_policy : AttemptInfo → PolicyRef → RetryPolicy
chain_policy info (declared p) = p
chain_policy info the_default =
    if is_none info.max_attempts then the_policy the_default else implicit_pinned_policy

-- `_Decision`.
pub record Decision : Type 0 where
  pub cause : Cause
  pub policy : RetryPolicy
  pub info : AttemptInfo
  pub budget : ℕ

-- The last test of `_decide`: a death asks `retry_lost`, an exception asks `retry_on`.
unfoldable pub is_retryable : Env → Row → Cause → RetryPolicy → Bool
is_retryable env row lost p = p.retry_lost
is_retryable env row interrupted p = p.retry_lost
is_retryable env row _ p = matches env row.exception_class_path p.retry_on

-- `_decide`.
unfoldable pub decide : Env → Db → Row → Cause → Option Decision
decide env db row cause =
    if not (status_eq row.status failed)
    then none
    else if is_bookkeeping row.exception_class_path
    then none
    else (let why = classify row cause in
        let info = attempt_info row.id db in
        let policy = chain_policy info (policy_for env.importing env.policies row.call.task_path) in
        let budget = or_else info.max_attempts (attempts env.settings policy) in
        if leb budget info.attempt
        then none
        else if is_retryable env row why policy
        then some (record { cause = why; policy = policy; info = info; budget = budget })
        else none)
