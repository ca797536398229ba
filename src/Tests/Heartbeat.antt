-- ===== src/Tests/Heartbeat.antt =====
-- A monitor with a maintenance window and three beats, and the theorems on its summaries.
use smallstack_tabler.Prelude.{
  ℕ, ◌+◌, ◌*◌, ◌/◌, ◌≡◌, refl, true, List, [], ◌∷◌, arith, any_row, count_where,
}
use smallstack_tabler.Heartbeat.Model.{MaintenanceWindow, contains, get_excluded_ranges}
use smallstack_tabler.Heartbeat.Model.Windows.{once, is_excluding, get_excluded_ranges-once}
use smallstack_tabler.Heartbeat.Services.{
  Heartbeat, State, Settings, CalendarLaw, BeatStatus, ok, fail, day_ok, day_observed,
  prune_old_heartbeats,
}
use smallstack_tabler.Heartbeat.Services.Conserved.{prune_old_heartbeats-day_counts}

abbrev window : ℕ → ℕ → ℕ → MaintenanceWindow
window i from to = record {
  id = i;
  monitor_key = "site";
  start = from;
  end = to;
  exclude_from_sla = true;
}

-- Two windows that overlap.
abbrev windows : List MaintenanceWindow
windows = window 1 40 60 ∷ window 2 20 50 ∷ []

get_excluded_ranges-once_example :
    count_where (contains 45) (get_excluded_ranges (0, 100) "site" windows)
    ≡ once (any_row (is_excluding 45 "site") windows)
get_excluded_ranges-once_example = get_excluded_ranges-once 45 (0, 100) "site" windows refl

-- Days of a hundred microseconds.
abbrev settings : Settings
settings = record {
  retention_days = 0;
  interval = 60;
  date_of = λ t. t / 100;
  day_bounds = λ d. (d * 100, d * 100 + 100);
  merge_average = λ avg prior times batch. avg;
  percent = λ good all. good;
}

settings-CalendarLaw : CalendarLaw settings
settings-CalendarLaw t d = ground arith

abbrev beat : ℕ → ℕ → BeatStatus → Heartbeat
beat i t status = record {
  id = i;
  monitor_key = "site";
  timestamp = t;
  status = status;
  response_time_ms = 7;
}

-- One ok beat, one in a window, one that failed, and one of the next day.
abbrev monitored : State
monitored = record {
  heartbeats = beat 1 10 ok ∷ beat 2 45 fail ∷ beat 3 90 fail ∷ beat 4 110 ok ∷ [];
  windows = windows;
  epochs = [];
  dailies = [];
}

prune_old_heartbeats-day_counts_example :
    (day_ok settings ("site", 0) (prune_old_heartbeats settings 95 monitored).1
      ≡ day_ok settings ("site", 0) monitored)
    × (day_observed settings ("site", 0) (prune_old_heartbeats settings 95 monitored).1
        ≡ day_observed settings ("site", 0) monitored)
prune_old_heartbeats-day_counts_example =
    prune_old_heartbeats-day_counts settings 95 monitored ("site", 0) settings-CalendarLaw
