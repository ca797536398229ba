-- ===== src/Tasks/Policy.antt =====
-- apps/tasks/reliability.py: retry policies, their registry and the backoff.
pub mod Bounds
use smallstack_tabler.Prelude.{
  ℕ, zero, suc, ◌+◌, ◌-◌, ◌*◌, ◌/◌, ◌^◌, min, String, Bool, true, false, ◌&&◌, ◌||◌, Option, none,
  some, List, [], ◌∷◌, ltb, str_eq, or_else, if◌then◌else◌,
}

-- `RetryPolicy`. Exception classes go by their names.
pub record RetryPolicy : Type 0 where
  pub max_attempts : Option ℕ
  pub backoff : Option ℕ
  pub backoff_max : Option ℕ
  pub retry_on : List String
  pub retry_lost : Bool

-- SMALLSTACK_TASKS_DEFAULT_MAX_ATTEMPTS, …_BACKOFF_SECONDS and …_BACKOFF_MAX_SECONDS, the two
-- durations in microseconds.
pub record RetrySettings : Type 0 where
  pub default_max_attempts : ℕ
  pub backoff_default : ℕ
  pub backoff_max_default : ℕ

-- `RetryPolicy.attempts`.
unfoldable pub attempts : RetrySettings → RetryPolicy → ℕ
attempts s p = or_else p.max_attempts s.default_max_attempts

-- The bound on the delay before attempt `attempt + 1`, in `RetryPolicy.delay`.
unfoldable pub delay_base : RetrySettings → RetryPolicy → ℕ → ℕ
delay_base s p attempt =
    let initial = or_else p.backoff s.backoff_default in
    let cap = or_else p.backoff_max s.backoff_max_default in min cap (initial * 2 ^ (attempt - 1))

-- `RetryPolicy.delay`; `uniform b` is the draw of `random.uniform(0, b)`.
unfoldable pub delay : RetrySettings → (ℕ → ℕ) → RetryPolicy → ℕ → ℕ
unfolding delay_base
delay s uniform p attempt = let base = delay_base s p attempt in base / 2 + uniform (base / 2)

abbrev pub default_policy : RetryPolicy
default_policy = record {
  max_attempts = none;
  backoff = none;
  backoff_max = none;
  retry_on = "Exception" ∷ [];
  retry_lost = true;
}

abbrev pub implicit_pinned_policy : RetryPolicy
implicit_pinned_policy = record default_policy { retry_lost = false }

-- `_POLICIES`, newest registration first.
abbrev pub Policies : Type 0
Policies = List (String × RetryPolicy)

unfoldable pub get_policy : String → Policies → Option RetryPolicy
get_policy path [] = none
get_policy path ((p, v) ∷ ps) = if str_eq p path then some v else get_policy path ps

pub data Registered : Type 0 where
  registered : Policies → Registered
  value_error : Registered
  type_error : Registered

-- `retry_policy(...)` applied to an object: `path` is its `module_path`, if it has one.
unfoldable pub retry_policy : RetryPolicy → Option String → Policies → Registered
retry_policy p path ps =
    if elim p.max_attempts [ none ↦ false | some m ↦ ltb m 1 ]
    then value_error
    else elim path [ none ↦ type_error | some i ↦ registered ((i, p) ∷ ps) ]

-- A task's policy: the one it declared, or `DEFAULT_POLICY`, which the code tells by `is`.
pub data PolicyRef : Type 0 where
  declared : RetryPolicy → PolicyRef
  the_default : PolicyRef

abbrev pub the_policy : PolicyRef → RetryPolicy
the_policy (declared p) = p
the_policy the_default = default_policy

abbrev pub policy_ref : Option RetryPolicy → PolicyRef
policy_ref none = the_default
policy_ref (some p) = declared p

-- `policy_for`; `importing path ps` is the registry after an attempt to import `path`.
unfoldable pub policy_for : (String → Policies → Policies) → Policies → String → PolicyRef
policy_for importing ps path = elim (get_policy path ps) [
  | some p ↦ declared p
  | none ↦ policy_ref (get_policy path (importing path ps))
]
