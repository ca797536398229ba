-- ===== src/Scheduler/Schedules.antt =====
-- apps/scheduler/schedules.py: interval specifications and the arithmetic of the next run. Texts of
-- interval specifications are the code points of ASCII texts.
pub mod Step
use smallstack_tabler.Prelude.{
  ℕ, zero, suc, ◌+◌, ◌-◌, ◌*◌, ◌/◌, String, Bool, true, false, not, ◌&&◌, ◌||◌, Option, none, some,
  List, [], ◌∷◌, leb, ltb, ◌==◌, str_eq, seconds, second, is_none, if◌then◌else◌,
}

-- A fixed length in microseconds, or a calendar step.
pub data IntervalDelta : Type 0 where
  fixed : ℕ → IntervalDelta
  months : ℕ → IntervalDelta
  years : ℕ → IntervalDelta

-- `\s` and `\d` of the pattern `_INTERVAL_RE`, and its case folding.
abbrev pub is_space : ℕ → Bool
is_space c = c == 32 || (leb 9 c && leb c 13 || leb 28 c && leb c 31)

abbrev pub is_digit : ℕ → Bool
is_digit c = leb b'0' c && leb c b'9'

abbrev pub to_lower : ℕ → ℕ
to_lower c = if leb b'A' c && leb c b'Z' then c + 32 else c

unfoldable pub skip_spaces : List ℕ → List ℕ
skip_spaces [] = []
skip_spaces (c ∷ cs) = let rest = skip_spaces cs in if is_space c then rest else c ∷ cs

-- `int(...)` of the digits, `none` when there is not one digit, and what follows them.
unfoldable pub read_digits : Option ℕ → List ℕ → Option ℕ × List ℕ
read_digits n [] = (n, [])
read_digits n (c ∷ cs) =
    let rest = read_digits (some (elim n [ none ↦ 0 | some k ↦ k * 10 ] + (c - b'0'))) cs in
    if is_digit c then rest else (n, c ∷ cs)

pub data IntervalUnit : Type 0 where
  unit_s unit_m unit_h unit_d unit_w unit_mo unit_y : IntervalUnit

-- A unit of one letter.
abbrev pub letter_unit : ℕ → Option IntervalUnit
letter_unit c =
    if c == b's'
    then some unit_s
    else if c == b'm'
    then some unit_m
    else if c == b'h'
    then some unit_h
    else if c == b'd'
    then some unit_d
    else if c == b'w'
    then some unit_w
    else if c == b'y'
    then some unit_y
    else none

abbrev pub with_rest : List ℕ → Option IntervalUnit → Option (IntervalUnit × List ℕ)
with_rest rest none = none
with_rest rest (some u) = some (u, rest)

-- "mo" is tried before the one letter "m".
unfoldable pub read_unit : List ℕ → Option (IntervalUnit × List ℕ)
read_unit [] = none
read_unit (a ∷ []) = with_rest [] (letter_unit (to_lower a))
read_unit (a ∷ b ∷ rest) =
    if to_lower a == b'm' && to_lower b == b'o'
    then some (unit_mo, rest)
    else with_rest (b ∷ rest) (letter_unit (to_lower a))

abbrev pub is_empty : List ℕ → Bool
is_empty [] = true
is_empty (x ∷ xs) = false

-- The two tables of units.
abbrev pub unit_delta : IntervalUnit → ℕ → IntervalDelta
unit_delta unit_s n = fixed (seconds n)
unit_delta unit_m n = fixed (seconds (n * 60))
unit_delta unit_h n = fixed (seconds (n * 3600))
unit_delta unit_d n = fixed (seconds (n * 86400))
unit_delta unit_w n = fixed (seconds (n * 604800))
unit_delta unit_mo n = months n
unit_delta unit_y n = years n

abbrev pub finish_interval : ℕ → Option (IntervalUnit × List ℕ) → Option IntervalDelta
finish_interval n none = none
finish_interval n (some (u, rest)) =
    if is_empty (skip_spaces rest) && ltb 0 n then some (unit_delta u n) else none

abbrev pub after_digits : Option ℕ × List ℕ → Option IntervalDelta
after_digits (none, rest) = none
after_digits (some n, rest) = finish_interval n (read_unit (skip_spaces rest))

-- `parse_interval`; `none` is its ScheduleConfigError.
unfoldable pub parse_interval : List ℕ → Option IntervalDelta
unfolding skip_spaces read_digits read_unit
parse_interval spec = after_digits (read_digits none (skip_spaces spec))

-- What the arithmetic takes from dateutil, croniter and the tz database. `add delta t` is
-- `t + relativedelta`, `cron expr tz after` the next fire (`none` if croniter raises),
-- `canonical name` is `canonical_timezone`, and `current_timezone` Django's.
pub record Calendar : Type 0 where
  pub add : IntervalDelta → ℕ → ℕ
  pub cron : String → String → ℕ → Option ℕ
  pub canonical : String → Option String
  pub current_timezone : String

abbrev pub loop_bound : ℕ
loop_bound = 10000

-- The loop of `_step_interval` over a calendar step.
unfoldable pub step_until : ℕ → (ℕ → ℕ) → ℕ → ℕ → ℕ
step_until zero add after nxt = nxt
step_until (suc n) add after nxt =
    let rest = step_until n add after (add nxt) in if ltb after nxt then nxt else rest

-- `_step_interval` on a parsed delta.
unfoldable pub step_delta : Calendar → ℕ → IntervalDelta → ℕ → ℕ
step_delta c anchor (fixed period) after =
    if ltb after anchor
    then anchor
    else (let steps = (after - anchor) / period + 1 in anchor + steps * period)
step_delta c anchor delta after = step_until loop_bound (c.add delta) after anchor

-- The next fire, or never again, or a ScheduleConfigError.
pub data Next : Type 0 where
  fires : ℕ → Next
  never : Next
  config_error : Next

unfoldable pub step_interval : Calendar → ℕ → List ℕ → ℕ → Next
step_interval c anchor spec after = elim (parse_interval spec) [
  | none ↦ config_error
  | some delta ↦ fires (step_delta c anchor delta after)
]

pub data ScheduleType : Type 0 where
  once interval cron unknown_type : ScheduleType

-- `ScheduleLike`.
pub record Schedule : Type 0 where
  pub schedule_type : ScheduleType
  pub interval_spec : List ℕ
  pub anchor_at : Option ℕ
  pub cron_expression : String
  pub run_at : Option ℕ
  pub timezone : String

-- `schedule_tz`.
unfoldable pub schedule_tz : Calendar → Schedule → Option String
schedule_tz c x = if str_eq x.timezone "" then some c.current_timezone else c.canonical x.timezone

abbrev pub next_of : Option ℕ → Next
next_of none = config_error
next_of (some t) = fires t

-- `_cron_next` in the timezone of the schedule.
unfoldable pub cron_next : Calendar → Schedule → ℕ → Option ℕ
cron_next c x after = elim (schedule_tz c x) [
  | none ↦ none
  | some tz ↦ c.cron x.cron_expression tz after
]

abbrev pub next_once : Option ℕ → ℕ → Next
next_once none after = config_error
next_once (some t) after = if ltb after t then fires t else never

abbrev pub anchor_or : Option ℕ → ℕ → ℕ
anchor_or none after = after
anchor_or (some a) after = a

unfoldable pub next_by_type : ScheduleType → Calendar → Schedule → ℕ → Next
next_by_type once c x after = next_once x.run_at after
next_by_type interval c x after =
    if is_empty x.interval_spec
    then config_error
    else step_interval c (anchor_or x.anchor_at after) x.interval_spec after
next_by_type cron c x after =
    if str_eq x.cron_expression "" then config_error else next_of (cron_next c x after)
next_by_type unknown_type c x after = config_error

-- `next_run`.
unfoldable pub next_run : Calendar → Schedule → ℕ → Next
unfolding next_by_type
next_run c x after = next_by_type x.schedule_type c x after

-- The two loops of `missed_periods`: steps until one passes `now`.
unfoldable pub count_steps : ℕ → (ℕ → Option ℕ) → ℕ → ℕ → Option ℕ
count_steps zero step now cursor = some 0
count_steps (suc n) step now cursor = elim (step cursor) [
  | none ↦ none
  | some next ↦
      if ltb now next
      then some 0
      else elim (count_steps n step now next) [ none ↦ none | some k ↦ some (suc k) ]
]

unfoldable pub missed_by_delta : Calendar → IntervalDelta → ℕ → ℕ → Option ℕ
missed_by_delta c (fixed period) scheduled_for now = some ((now - scheduled_for) / period)
missed_by_delta c delta scheduled_for now =
    count_steps loop_bound (λ t. some (c.add delta t)) now scheduled_for

unfoldable pub missed_by_type : ScheduleType → Calendar → Schedule → ℕ → ℕ → Option ℕ
missed_by_type interval c x scheduled_for now =
    if is_empty x.interval_spec then some 0 else elim (parse_interval x.interval_spec) [
      | none ↦ none
      | some delta ↦ missed_by_delta c delta scheduled_for now
    ]
missed_by_type cron c x scheduled_for now =
    if str_eq x.cron_expression ""
    then some 0
    else count_steps loop_bound (cron_next c x) now scheduled_for
missed_by_type _ c x scheduled_for now = some 0

-- `missed_periods`; `none` is a ScheduleConfigError that leaves it.
unfoldable pub missed_periods : Calendar → Schedule → ℕ → ℕ → Option ℕ
unfolding missed_by_type
missed_periods c x scheduled_for now =
    if leb now scheduled_for then some 0 else missed_by_type x.schedule_type c x scheduled_for now
