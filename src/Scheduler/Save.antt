-- ===== src/Scheduler/Save.antt =====
-- apps/scheduler/models.py: `ScheduledJob.save`, which seeds the cursor again when the cadence changed.
pub mod Cadence
pub mod Cursor
use smallstack_tabler.Prelude.{
  ℕ, String, Bool, true, false, not, ◌&&◌, ◌||◌, Option, none, some, List, [], ◌∷◌, ◌==◌, str_eq,
  is_none, or_else, if◌then◌else◌,
}
use smallstack_tabler.Scheduler.Schedules.{
  Calendar, Schedule, ScheduleType, once, interval, cron, unknown_type, Next, fires, never,
  config_error, next_run,
}
use smallstack_tabler.Scheduler.Tick.{ScheduledJob}

abbrev pub type_eq : ScheduleType → ScheduleType → Bool
type_eq once once = true
type_eq interval interval = true
type_eq cron cron = true
type_eq unknown_type unknown_type = true
type_eq _ _ = false

abbrev pub text_eq : List ℕ → List ℕ → Bool
text_eq [] [] = true
text_eq (a ∷ rest) (b ∷ others) = a == b && text_eq rest others
text_eq _ _ = false

abbrev pub time_eq : Option ℕ → Option ℕ → Bool
time_eq none none = true
time_eq (some a) (some b) = a == b
time_eq _ _ = false

-- Whether CADENCE_FIELDS agree.
unfoldable pub same_cadence : Schedule → Schedule → Bool
same_cadence x y =
    type_eq x.schedule_type y.schedule_type
    && (text_eq x.interval_spec y.interval_spec
        && (str_eq x.cron_expression y.cron_expression
            && (time_eq x.run_at y.run_at
                && (str_eq x.timezone y.timezone && time_eq x.anchor_at y.anchor_at))))

-- `_cadence_changed`; `stored` is the row of the job's pk, if it has one.
unfoldable pub cadence_changed : Option Schedule → Schedule → Bool
cadence_changed none x = false
cadence_changed (some old) x = not (same_cadence old x)

-- The timezone in its canonical spelling; an unknown one is left.
unfoldable pub canonical_schedule : Calendar → Schedule → Schedule
canonical_schedule c x =
    if str_eq x.timezone ""
    then x
    else record x { timezone = or_else (c.canonical x.timezone) x.timezone }

abbrev pub cursor_of : Next → Option ℕ
cursor_of (fires t) = some t
cursor_of never = none
cursor_of config_error = none

-- `save`: the row that it writes.
unfoldable pub save : Calendar → ℕ → Option Schedule → ScheduledJob → ScheduledJob
save c now stored job =
    let x = canonical_schedule c job.schedule in
    let saved : ScheduledJob = record job { schedule = x } in
    if job.enabled && (is_none job.next_run_at || cadence_changed stored x)
    then record saved { next_run_at = cursor_of (next_run c x now) }
    else saved
