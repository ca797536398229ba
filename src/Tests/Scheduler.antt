-- ===== src/Tests/Scheduler.antt =====
-- A job that is due, and the theorems on cadences and claims at it.
use smallstack_tabler.Prelude.{
  ap, ℕ, sym, ◌∙◌, ◌+◌, ◌*◌, ◌≡◌, ◌<◌, refl, String, true, false, Option, none, some, List, [], ◌∷◌,
  arith, seconds,
}
use smallstack_tabler.Scheduler.Schedules.{
  IntervalDelta, fixed, months, years, Calendar, Schedule, interval, fires, config_error, next_run,
  next_by_type, step_interval, step_delta, parse_interval, skip_spaces, read_digits, read_unit,
}
use smallstack_tabler.Scheduler.Schedules.Step.{CalendarLaws, next_run-later}
use smallstack_tabler.Scheduler.Tick.{
  run_once, blank, ScheduledJob, State, refused, TickEnv, no_results, process_job,
}
use smallstack_tabler.Scheduler.Save.{cadence_changed, canonical_schedule, same_cadence, save}
use smallstack_tabler.Scheduler.Save.Cadence.{in_timezone, NeedsCursor, new_cadence}
use smallstack_tabler.Scheduler.Save.Cursor.{save-later}
use smallstack_tabler.Scheduler.Tick.Claim.{process_job-once}
use smallstack_tabler.Tests.Tasks.{sample_env, failed_db}

abbrev day : ℕ
day = seconds 86400

-- Months of 30 days and years of 365, and a cron that fires a minute later.
abbrev sample_add : IntervalDelta → ℕ → ℕ
sample_add (fixed n) t = t + n
sample_add (months n) t = t + n * 30 * day
sample_add (years n) t = t + n * 365 * day

abbrev sample_cron : String → String → ℕ → Option ℕ
sample_cron e tz after = some (after + seconds 60)

abbrev sample_calendar : Calendar
sample_calendar = record {
  add = sample_add;
  cron = sample_cron;
  canonical = λ name. some name;
  current_timezone = "UTC";
}

sample_calendar-laws : CalendarLaws sample_calendar
sample_calendar-laws = record {
  months_grow = λ n t h. omega arith;
  years_grow = λ n t h. omega arith;
  cron_later = λ e tz after t h. let same : after + seconds 60 ≡ t = cc in omega arith;
}

-- " 5m", in code points.
abbrev five_minutes : List ℕ
five_minutes = 32 ∷ 53 ∷ b'm' ∷ []

parses : parse_interval five_minutes ≡ some (fixed (seconds 300))
unfolding parse_interval skip_spaces read_digits read_unit
parses = refl

abbrev sample_schedule : Schedule
sample_schedule = record {
  schedule_type = interval;
  interval_spec = five_minutes;
  anchor_at = some (seconds 10);
  cron_expression = "";
  run_at = none;
  timezone = "";
}

next_at : next_run sample_calendar sample_schedule (seconds 400) ≡ fires (seconds 610)
unfolding next_run next_by_type step_interval step_delta parse_interval skip_spaces read_digits
    read_unit
next_at = refl

next_later_at : next_run sample_calendar sample_schedule (seconds 401) ≡ fires (seconds 610)
unfolding next_run next_by_type step_interval step_delta parse_interval skip_spaces read_digits
    read_unit
next_later_at = refl

next_run-later_example : seconds 400 < seconds 610
next_run-later_example =
    next_run-later sample_calendar sample_schedule (seconds 400) (seconds 610) sample_calendar-laws
      (omega arith) next_at

abbrev pub sample_job : ScheduledJob
sample_job = record {
  id = 1;
  name = "sweep";
  task_path = "shop.tasks.sweep";
  kwargs = [];
  queue_name = "default";
  schedule = sample_schedule;
  enabled = true;
  allow_overlap = false;
  catch_up = run_once;
  max_retries = 0;
  next_run_at = some (seconds 310);
  last_enqueued_at = none;
  last_status = blank;
  total_runs = 0;
}

abbrev sample_tick : TickEnv
sample_tick = record {
  tasks_env = sample_env;
  calendar = sample_calendar;
  stale_run = seconds 3600;
  enqueue_job = λ job now db. refused;
}

abbrev sample_state : State
sample_state = record { jobs = sample_job ∷ []; runs = []; tasks = failed_db }

process_job-once_example :
    process_job sample_tick sample_job
      (seconds 401)
      no_results
      (process_job sample_tick sample_job (seconds 400) no_results sample_state).1
    ≡ (no_results, (process_job sample_tick sample_job (seconds 400) no_results sample_state).1)
process_job-once_example =
    process_job-once sample_tick sample_job (seconds 310) (seconds 400) (seconds 401) no_results
      no_results sample_state sample_calendar-laws (omega arith) (omega arith) refl
      (λ e. let no : fires (seconds 610) ≡ config_error = sym next_at ∙ e in cc)
      (λ e. let no : fires (seconds 610) ≡ config_error = sym next_later_at ∙ e in cc)

-- The same job, once every ten minutes before.
abbrev old_schedule : Schedule
old_schedule = record sample_schedule { interval_spec = 49 ∷ 48 ∷ b'm' ∷ [] }

abbrev first : List ℕ → ℕ
first [] = 0
first (x ∷ rest) = x

five_ten : ¬ (49 ∷ 48 ∷ b'm' ∷ [] ≡ five_minutes)
five_ten e = let other : 49 ≡ 32 = ap first e in omega (arith, other)

changes : NeedsCursor sample_calendar (some old_schedule) sample_job
changes = new_cadence old_schedule refl (λ same. five_ten same.interval_spec)

saves :
    (save sample_calendar (seconds 400) (some old_schedule) sample_job).next_run_at
    ≡ some (seconds 610)
unfolding save cadence_changed same_cadence canonical_schedule next_run next_by_type step_interval
    step_delta parse_interval skip_spaces read_digits read_unit
saves = refl

save-later_example :
    (next_run sample_calendar (in_timezone sample_calendar sample_schedule) (seconds 400)
      ≡ fires (seconds 610))
    × (seconds 400 < seconds 610)
save-later_example =
    save-later sample_calendar (seconds 400) (some old_schedule) sample_job (seconds 610)
      sample_calendar-laws (omega arith) refl changes saves
