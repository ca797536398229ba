-- ===== src/Scheduler/Schedules/Step.antt =====
-- apps/scheduler/schedules.py: where the steps of a cadence lie.
use smallstack_tabler.Prelude.{
  ℕ, zero, suc, ◌+◌, ◌-◌, ◌*◌, ◌/◌, ◌≤◌, ◌<◌, ◌≡◌, refl, subst, String, ◌&&◌, Option, none, some,
  List, arith, ltb, Bool-cases, Option-cases, inl, inr, seconds, ◌⊎◌, ltb→lt,
}
use native.Mathlib.Nat.{div-add-mod', mod-lt}
use mathlib.Core.Option.{some-injective}
use smallstack_tabler.Scheduler.Schedules.{
  Calendar, IntervalDelta, fixed, months, years, step_until, step_delta, step_interval, fires,
  config_error, Schedule, next_run, next_by_type, cron_next, parse_interval, unit_delta, loop_bound,
  IntervalUnit, unit_mo, unit_y, finish_interval, after_digits, is_empty, skip_spaces, read_unit,
  read_digits, anchor_or, schedule_tz, ScheduleType, once, interval, cron, unknown_type,
}

next_multiple :
    (anchor gap period : ℕ)
    → 0 < period
    → let t = anchor + (gap / period + 1) * period in
      (anchor + gap < t) × (anchor + period ≤ t) × (t ≤ anchor + gap + period)
next_multiple anchor gap period h = (
  omega (arith, div-add-mod' gap period, mod-lt gap h),
  omega (arith, div-add-mod' gap period, mod-lt gap h),
  omega (arith, div-add-mod' gap period, mod-lt gap h),
)

-- What the result of a fixed interval is: the anchor, if that lies ahead, and else the first whole
-- number of periods from it that is past `after`.
record IsFixedStep (anchor period after t : ℕ) : Type 0 where
  pub later : after < t
  pub multiple : (k : ℕ) × (t ≡ anchor + k * period)
  pub least : (t ≡ anchor) ⊎ ((anchor + period ≤ t) × (t ≤ after + period))

-- A fixed interval of positive length steps to the first multiple from the anchor that lies
-- strictly after the given time, the anchor itself included.
step_delta-fixed :
    (c : Calendar) (anchor period after : ℕ)
    → 0 < period
    → IsFixedStep anchor period after (step_delta c anchor (fixed period) after)
unfolding step_delta
step_delta-fixed c anchor period after h =
    let gap = after - anchor in
    let (past, up, low) = next_multiple anchor gap period h in
    elim (Bool-cases (ltb after anchor)) [
      | inl f ↦
          rw (f, step_delta)
            (record {
              later = ltb→lt after anchor f;
              multiple = (0, omega arith);
              least = inl refl;
            })
      | inr f ↦
          let below : anchor ≤ after = ground arith in
          rw (f, step_delta)
            (record {
              later = omega arith;
              multiple = (gap / period + 1, refl);
              least = inr (omega arith, omega arith);
            })
    ]

-- An interval counts at least one unit.
abbrev pub IsPositive : IntervalDelta → Type 0
IsPositive (fixed n) = 0 < n
IsPositive (months n) = 0 < n
IsPositive (years n) = 0 < n

-- A calendar step moves on by at least a day, and croniter's next fire is a later one.
pub record CalendarLaws (c : Calendar) : Type 0 where
  pub months_grow : (n t : ℕ) → 0 < n → t + seconds 86400 ≤ c.add (months n) t
  pub years_grow : (n t : ℕ) → 0 < n → t + seconds 86400 ≤ c.add (years n) t
  pub cron_later : (e tz : String) (after t : ℕ) → c.cron e tz after ≡ some t → after < t

step_until-later :
    (n g : ℕ) (add : ℕ → ℕ) (after nxt : ℕ)
    → ((t : ℕ) → t + g ≤ add t)
    → after < nxt + n * g
    → after < step_until n add after nxt
unfolding step_until
step_until-later zero g add after nxt k h = omega arith
step_until-later (suc n) g add after nxt k h = elim (Bool-cases (ltb after nxt)) [
  | inl f ↦ rw (f, step_until) (ltb→lt after nxt f)
  | inr f ↦ rw (f, step_until) (step_until-later n g add after (add nxt) k (omega (arith, k nxt)))
]

-- 10000 days, which the 10000 turns of the loop cover.
abbrev pub horizon : ℕ
horizon = seconds 864000000

step_delta-later :
    (c : Calendar) (delta : IntervalDelta) (anchor after : ℕ)
    → CalendarLaws c
    → after < anchor + horizon
    → IsPositive delta
    → after < step_delta c anchor delta after
unfolding step_delta
step_delta-later c (fixed n) anchor after l h pos = (step_delta-fixed c anchor n after pos).later
step_delta-later c (months n) anchor after l h pos =
    step_until-later loop_bound (seconds 86400) (c.add (months n)) after anchor
      (λ t. l.months_grow n t pos) (omega arith)
step_delta-later c (years n) anchor after l h pos =
    step_until-later loop_bound (seconds 86400) (c.add (years n)) after anchor
      (λ t. l.years_grow n t pos) (omega arith)

unit_delta-IsPositive : (u : IntervalUnit) (n : ℕ) → 0 < n → IsPositive (unit_delta u n)
unit_delta-IsPositive unit_mo n h = h
unit_delta-IsPositive unit_y n h = h
unit_delta-IsPositive _ n h = omega arith

finish_interval-IsPositive :
    (n : ℕ) (o : Option (IntervalUnit × List ℕ)) (delta : IntervalDelta)
    → finish_interval n o ≡ some delta
    → IsPositive delta
finish_interval-IsPositive n none delta e = cc
finish_interval-IsPositive n (some (u, rest)) delta e =
    elim (Bool-cases (is_empty (skip_spaces rest) && ltb 0 n)) [
      | inl t ↦
          subst IsPositive (some-injective (unit_delta u n) delta (rw t at e))
            (unit_delta-IsPositive u n (ground arith))
      | inr f ↦ let no : none ≡ some delta = rw f at e in cc
    ]

after_digits-IsPositive :
    (r : Option ℕ × List ℕ) (delta : IntervalDelta) → after_digits r ≡ some delta → IsPositive delta
after_digits-IsPositive (none, rest) delta e = cc
after_digits-IsPositive (some n, rest) delta e =
    finish_interval-IsPositive n (read_unit (skip_spaces rest)) delta e

-- An interval that the parser accepts is positive.
pub parse_interval-IsPositive :
    (spec : List ℕ) (delta : IntervalDelta) → parse_interval spec ≡ some delta → IsPositive delta
unfolding parse_interval
parse_interval-IsPositive spec delta e =
    after_digits-IsPositive (read_digits none (skip_spaces spec)) delta e

-- The anchor of an interval schedule lies less than `horizon` before `after`.
abbrev pub IsNear : Schedule → ℕ → Type 0
IsNear x after = after < anchor_or x.anchor_at after + horizon

step_interval-later :
    (c : Calendar) (anchor : ℕ) (spec : List ℕ) (after t : ℕ)
    → CalendarLaws c
    → after < anchor + horizon
    → step_interval c anchor spec after ≡ fires t
    → after < t
unfolding step_interval
step_interval-later c anchor spec after t l h e = elim (Option-cases (parse_interval spec)) [
  | inl n ↦ let no : config_error ≡ fires t = rw (n, step_interval) at e in cc
  | inr (delta, f) ↦
      let is : fires (step_delta c anchor delta after) ≡ fires t = rw (f, step_interval) at e in
      let same : step_delta c anchor delta after ≡ t = cc in
      subst (λ k. after < k) same
        (step_delta-later c delta anchor after l h (parse_interval-IsPositive spec delta f))
]

cron_next-later :
    (c : Calendar) (x : Schedule) (after t : ℕ)
    → CalendarLaws c
    → cron_next c x after ≡ some t
    → after < t
unfolding cron_next
cron_next-later c x after t l e = elim (Option-cases (schedule_tz c x)) [
  | inl n ↦ let no : none ≡ some t = rw (n, cron_next) at e in cc
  | inr (tz, f) ↦ l.cron_later x.cron_expression tz after t (rw (f, cron_next) at e)
]

by_type-later :
    (k : ScheduleType) (c : Calendar) (x : Schedule) (after t : ℕ)
    → CalendarLaws c
    → IsNear x after
    → next_by_type k c x after ≡ fires t
    → after < t
unfolding next_by_type
by_type-later once c x after t l h e = ground arith
by_type-later interval c x after t l h e =
    step_interval-later c (anchor_or x.anchor_at after) x.interval_spec after t l h (ground arith)
by_type-later cron c x after t l h e = cron_next-later c x after t l (ground arith)
by_type-later unknown_type c x after t l h e = cc

-- Whatever the type of the schedule, the next run is strictly later than the given time, if the
-- calendar's months, years and cron fires step forward and the anchor of an interval is less than
-- 10000 days old.
pub next_run-later :
    (c : Calendar) (x : Schedule) (after t : ℕ)
    → CalendarLaws c
    → IsNear x after
    → next_run c x after ≡ fires t
    → after < t
unfolding next_run
next_run-later c x after t = by_type-later x.schedule_type c x after t
