-- ===== src/Heartbeat/Services.antt =====
-- apps/heartbeat/services.py: pruning heartbeats into daily summaries, and apps/heartbeat/status.py:
-- the counts that are summed with them.
pub mod Counted
pub mod Folded
pub mod Conserved
use smallstack_tabler.Prelude.{
  ℕ, ◌+◌, ◌-◌, ◌*◌, ◌/◌, max, min, ◌≡◌, String, Bool, true, false, not, ◌&&◌, Option, none, some,
  List, [], ◌∷◌, ◌++◌, map, ltb, leb, ◌==◌, str_eq, second, seconds, length, filter_rows, any_row,
  count_where, find, update_where, if◌then◌else◌,
}
use smallstack_tabler.Heartbeat.Model.{MaintenanceWindow, Span, contains, get_excluded_ranges}

-- `Heartbeat.status`.
pub data BeatStatus : Type 0 where
  ok fail : BeatStatus

pub record Heartbeat : Type 0 where
  pub id : ℕ
  pub monitor_key : String
  pub timestamp : ℕ
  pub status : BeatStatus
  pub response_time_ms : ℕ

pub record HeartbeatEpoch : Type 0 where
  pub monitor_key : String
  pub started_at : ℕ

pub record HeartbeatDaily : Type 0 where
  pub monitor_key : String
  pub date : ℕ
  pub ok_count : ℕ
  pub fail_count : ℕ
  pub maintenance_count : ℕ
  pub expected_count : ℕ
  pub avg_response_ms : ℕ
  pub uptime_pct : ℕ

pub record State : Type 0 where
  pub heartbeats : List Heartbeat
  pub windows : List MaintenanceWindow
  pub epochs : List HeartbeatEpoch
  pub dailies : List HeartbeatDaily

-- The settings, the current time zone's calendar, and the arithmetic on floating point numbers: the
-- merged average of a row's and of a batch's times, and the rounded percentage.
pub record Settings : Type 0 where
  pub retention_days : ℕ
  pub interval : ℕ
  pub date_of : ℕ → ℕ
  pub day_bounds : ℕ → Span
  pub merge_average : ℕ → ℕ → List ℕ → ℕ → ℕ
  pub percent : ℕ → ℕ → ℕ

abbrev pub is_ok : Heartbeat → Bool
is_ok h = elim h.status [ ok ↦ true | fail ↦ false ]

-- `date_of` and `day_bounds` are of one zone: a time has the date of the day that contains it.
abbrev pub CalendarLaw : Settings → Type 0
CalendarLaw c = (t d : ℕ) → (c.date_of t == d) ≡ contains t (c.day_bounds d)

abbrev pub sum_of : (Span → ℕ) → List Span → ℕ
sum_of f [] = 0
sum_of f (x ∷ xs) = f x + sum_of f xs

-- `max(day_start, epoch_start) if epoch_start else day_start`.
abbrev pub later_of : ℕ → Option HeartbeatEpoch → ℕ
later_of t none = t
later_of t (some e) = max t e.started_at

-- `expected_intervals_for_day`. The excluded time is the sum of the ends less that of the starts.
unfoldable pub expected_intervals_for_day : Settings → ℕ → String → ℕ → State → ℕ
expected_intervals_for_day c day key now s =
    let (day_start, day_end) = c.day_bounds day in
    let start = later_of day_start (find (λ e. str_eq e.monitor_key key) s.epochs) in
    let end = min day_end now in
    let ranges = get_excluded_ranges (start, end) key s.windows in
    if leb end start
    then 0
    else ((end + sum_of (λ r. r.0) ranges) - (start + sum_of (λ r. r.1) ranges))
      / (c.interval * second)

-- A monitor and a date.
abbrev pub Group : Type 0
Group = String × ℕ

abbrev pub same_group : Group → Group → Bool
same_group (k, d) (l, e) = str_eq k l && (d == e)

abbrev pub group_of : Settings → Heartbeat → Group
group_of c h = (h.monitor_key, c.date_of h.timestamp)

-- `values("monitor_key", "timestamp__date")`: the distinct groups, up to their order.
unfoldable pub groups : Settings → List Heartbeat → List Group
groups c [] = []
groups c (h ∷ hs) =
    let rest = groups c hs in
    if any_row (same_group (group_of c h)) rest then rest else group_of c h ∷ rest

abbrev pub in_group : Settings → Group → Heartbeat → Bool
in_group c g h = same_group g (group_of c h)

abbrev pub in_batch : Settings → Group → Heartbeat → Bool
in_batch c (key, day) h = str_eq key h.monitor_key && contains h.timestamp (c.day_bounds day)

abbrev pub excluded_of : Settings → Group → State → List Span
excluded_of c (key, day) s = get_excluded_ranges (c.day_bounds day) key s.windows

-- The loop over the excluded ranges: how many beats of the batch that pass `p` each of them holds.
unfoldable pub count_excluded :
    (Heartbeat → Bool) → Settings → Group → List Span → List Heartbeat → ℕ
count_excluded p c g [] old = 0
count_excluded p c g (r ∷ rs) old =
    count_where (λ h. in_batch c g h && (contains h.timestamp r && p h)) old
    + count_excluded p c g rs old

-- What one group of the batch adds: beats outside the excluded ranges that are ok, those that
-- failed, and all inside.
unfoldable pub sla_ok : Settings → Group → State → List Heartbeat → ℕ
sla_ok c g s old =
    count_where (λ h. in_group c g h && is_ok h) old
    - count_excluded is_ok c g (excluded_of c g s) old

unfoldable pub excluded_total : Settings → Group → State → List Heartbeat → ℕ
excluded_total c g s old = count_excluded (λ h. true) c g (excluded_of c g s) old

unfoldable pub sla_fail : Settings → Group → State → List Heartbeat → ℕ
sla_fail c g s old =
    count_where (λ h. in_group c g h && not (is_ok h)) old
    - (excluded_total c g s old - count_excluded is_ok c g (excluded_of c g s) old)

abbrev pub is_row_of : Group → HeartbeatDaily → Bool
is_row_of g r = same_group g (r.monitor_key, r.date)

-- `get_or_create` with its defaults.
abbrev pub new_row : Group → ℕ → HeartbeatDaily
new_row (key, day) expected = record {
  monitor_key = key;
  date = day;
  ok_count = 0;
  fail_count = 0;
  maintenance_count = 0;
  expected_count = expected;
  avg_response_ms = 0;
  uptime_pct = 0;
}

unfoldable pub get_or_create : Group → ℕ → List HeartbeatDaily → List HeartbeatDaily
get_or_create g expected rows =
    if any_row (is_row_of g) rows then rows else rows ++ new_row g expected ∷ []

abbrev pub merged_average : Settings → ℕ → ℕ → List ℕ → ℕ → ℕ
merged_average c avg prior times batch =
    if (prior + batch) == 0 then avg else c.merge_average avg prior times batch

abbrev pub rounded : Settings → ℕ → ℕ → ℕ
rounded c good denominator = if denominator == 0 then 0 else c.percent good denominator

-- The columns that one group writes in its row.
unfoldable pub accumulate : Settings → ℕ → ℕ → ℕ → ℕ → List ℕ → HeartbeatDaily → HeartbeatDaily
accumulate c good bad excluded expected times r = record r {
  ok_count = r.ok_count + good;
  fail_count = r.fail_count + bad;
  maintenance_count = r.maintenance_count + excluded;
  expected_count = expected;
  avg_response_ms =
      merged_average c r.avg_response_ms (r.ok_count + r.fail_count) times (good + bad);
  uptime_pct =
      rounded c (r.ok_count + good) (max ((r.ok_count + good) + (r.fail_count + bad)) expected);
}

unfoldable pub fold_group :
    Settings → ℕ → List Heartbeat → State → Group → List HeartbeatDaily → List HeartbeatDaily
fold_group c now old s g rows =
    let expected = expected_intervals_for_day c g.1 g.0 now s in
    update_where (is_row_of g)
      (accumulate c (sla_ok c g s old) (sla_fail c g s old) (excluded_total c g s old) expected
        (map (λ h. h.response_time_ms) (filter_rows (in_group c g) old)))
      (get_or_create g expected rows)

-- `_write_daily_summaries`.
unfoldable pub fold_groups :
    Settings → ℕ → List Heartbeat → State → List Group → List HeartbeatDaily → List HeartbeatDaily
fold_groups c now old s [] rows = rows
fold_groups c now old s (g ∷ gs) rows = fold_groups c now old s gs (fold_group c now old s g rows)

-- `timestamp < now - timedelta(days=retention_days)`.
abbrev pub is_old : Settings → ℕ → Heartbeat → Bool
is_old c now h = ltb (h.timestamp + seconds (c.retention_days * 86400)) now

-- `prune_old_heartbeats`, with the number of the deleted rows.
unfoldable pub prune_old_heartbeats : Settings → ℕ → State → ℕ × State
prune_old_heartbeats c now s =
    let old = filter_rows (is_old c now) s.heartbeats in
    if not (any_row (is_old c now) s.heartbeats) then (0, s) else (
      length old,
      record s {
        heartbeats = filter_rows (λ h. not (is_old c now h)) s.heartbeats;
        dailies = fold_groups c now old s (groups c old) s.dailies;
      },
    )

-- `_get_non_maintenance_counts` over a day: the beats that count, by the given test.
unfoldable pub is_counted : Settings → Group → State → Heartbeat → Bool
is_counted c g s h = in_batch c g h && not (any_row (contains h.timestamp) (excluded_of c g s))

unfoldable pub non_maintenance_ok : Settings → Group → State → ℕ
non_maintenance_ok c g s = count_where (λ h. is_counted c g s h && is_ok h) s.heartbeats

unfoldable pub non_maintenance_fail : Settings → Group → State → ℕ
non_maintenance_fail c g s = count_where (λ h. is_counted c g s h && not (is_ok h)) s.heartbeats

-- The summary of a day, and the counts of a day that `_daily_uptime_map` sums from both sources.
abbrev pub column_value : (HeartbeatDaily → ℕ) → Option HeartbeatDaily → ℕ
column_value f none = 0
column_value f (some r) = f r

abbrev pub column_of : (HeartbeatDaily → ℕ) → Group → List HeartbeatDaily → ℕ
column_of f g rows = column_value f (find (is_row_of g) rows)

unfoldable pub day_ok : Settings → Group → State → ℕ
day_ok c g s = column_of (λ r. r.ok_count) g s.dailies + non_maintenance_ok c g s

unfoldable pub day_observed : Settings → Group → State → ℕ
day_observed c g s =
    column_of (λ r. r.ok_count + r.fail_count) g s.dailies
    + (non_maintenance_ok c g s + non_maintenance_fail c g s)
