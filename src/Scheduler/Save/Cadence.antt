-- ===== src/Scheduler/Save/Cadence.antt =====
-- apps/scheduler/models.py: when a save seeds the cursor of a job again.
use smallstack_tabler.Prelude.{
  subst, ==→eq, eq_iff, List, [], ◌∷◌, or_else, ap, if◌then◌else◌, arith, ℕ, ◌≡◌, refl, true, ◌||◌,
  Option, none, some, Bool-cases, inl, inr, is_none, str_eq,
}
use smallstack_tabler.Scheduler.Schedules.{
  Calendar, Schedule, ScheduleType, once, interval, cron, unknown_type,
}
use smallstack_tabler.Scheduler.Tick.{ScheduledJob}
use smallstack_tabler.Scheduler.Save.{
  type_eq, text_eq, time_eq, same_cadence, cadence_changed, canonical_schedule,
}

-- The schedule with its timezone in the calendar's spelling, where it names one that is known.
abbrev pub in_timezone : Calendar → Schedule → Schedule
in_timezone c x = record {
  schedule_type = x.schedule_type;
  interval_spec = x.interval_spec;
  anchor_at = x.anchor_at;
  cron_expression = x.cron_expression;
  run_at = x.run_at;
  timezone =
      if str_eq x.timezone "" then x.timezone else or_else (c.canonical x.timezone) x.timezone;
}

-- Two schedules have one cadence: they agree on every field.
pub record SameCadence (x y : Schedule) : Type 0 where
  pub schedule_type : x.schedule_type ≡ y.schedule_type
  pub interval_spec : x.interval_spec ≡ y.interval_spec
  pub cron_expression : x.cron_expression ≡ y.cron_expression
  pub run_at : x.run_at ≡ y.run_at
  pub timezone : x.timezone ≡ y.timezone
  pub anchor_at : x.anchor_at ≡ y.anchor_at

-- The job has no cursor, or its cadence is not the stored one.
pub data NeedsCursor (c : Calendar) (stored : Option Schedule) (job : ScheduledJob) : Type 0 where
  no_cursor : job.next_run_at ≡ none → NeedsCursor c stored job
  new_cadence :
      (old : Schedule)
      → stored ≡ some old
      → ¬ (SameCadence old (in_timezone c job.schedule))
      → NeedsCursor c stored job

type_eq-≡ : (a b : ScheduleType) → type_eq a b ≡ true → a ≡ b
type_eq-≡ once once h = refl
type_eq-≡ once interval h = cc
type_eq-≡ once cron h = cc
type_eq-≡ once unknown_type h = cc
type_eq-≡ interval once h = cc
type_eq-≡ interval interval h = refl
type_eq-≡ interval cron h = cc
type_eq-≡ interval unknown_type h = cc
type_eq-≡ cron once h = cc
type_eq-≡ cron interval h = cc
type_eq-≡ cron cron h = refl
type_eq-≡ cron unknown_type h = cc
type_eq-≡ unknown_type once h = cc
type_eq-≡ unknown_type interval h = cc
type_eq-≡ unknown_type cron h = cc
type_eq-≡ unknown_type unknown_type h = refl

text_eq-≡ : (a b : List ℕ) → text_eq a b ≡ true → a ≡ b
text_eq-≡ [] [] h = refl
text_eq-≡ [] (y ∷ ys) h = cc
text_eq-≡ (x ∷ xs) [] h = cc
text_eq-≡ (x ∷ xs) (y ∷ ys) h =
    let first : x ≡ y = ==→eq x y (ground arith) in
    let rest : xs ≡ ys = text_eq-≡ xs ys (ground arith) in rw (first, rest) refl

time_eq-≡ : (a b : Option ℕ) → time_eq a b ≡ true → a ≡ b
time_eq-≡ none none h = refl
time_eq-≡ none (some b) h = cc
time_eq-≡ (some a) none h = cc
time_eq-≡ (some a) (some b) h = ap some (==→eq a b h)

same_cadence-SameCadence : (x y : Schedule) → same_cadence x y ≡ true → SameCadence x y
unfolding same_cadence
same_cadence-SameCadence x y h = record {
  schedule_type = type_eq-≡ x.schedule_type y.schedule_type (ground arith);
  interval_spec = text_eq-≡ x.interval_spec y.interval_spec (ground arith);
  cron_expression = (eq_iff x.cron_expression y.cron_expression).0 (ground arith);
  run_at = time_eq-≡ x.run_at y.run_at (ground arith);
  timezone = (eq_iff x.timezone y.timezone).0 (ground arith);
  anchor_at = time_eq-≡ x.anchor_at y.anchor_at (ground arith);
}

pub canonical_schedule-eq : (c : Calendar) (x : Schedule) → canonical_schedule c x ≡ in_timezone c x
unfolding canonical_schedule
canonical_schedule-eq c x = elim (Bool-cases (str_eq x.timezone "")) [
  | inl t ↦ rw (t, canonical_schedule) refl
  | inr f ↦ rw (f, canonical_schedule) refl
]

-- Such a job takes the branch of `save` that seeds the cursor.
pub NeedsCursor-changed :
    (c : Calendar) (stored : Option Schedule) (job : ScheduledJob)
    → NeedsCursor c stored job
    → (is_none job.next_run_at || cadence_changed stored (canonical_schedule c job.schedule)) ≡ true
unfolding cadence_changed
NeedsCursor-changed c stored job (no_cursor e) = rw e refl
NeedsCursor-changed c stored job (new_cadence old e differs) =
    elim (Bool-cases (same_cadence old (canonical_schedule c job.schedule))) [
      | inl same ↦ absurd (
          differs (
            subst (λ y. SameCadence old y) (canonical_schedule-eq c job.schedule)
              (same_cadence-SameCadence old (canonical_schedule c job.schedule) same)))
      | inr f ↦
          let changed : cadence_changed stored (canonical_schedule c job.schedule) ≡ true =
            rw (e, f, cadence_changed) refl in
          ground arith
    ]
