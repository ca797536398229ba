-- ===== src/Scheduler/Save/Cursor.antt =====
-- apps/scheduler/models.py: where a save leaves the cursor of a job.
use smallstack_tabler.Prelude.{
  subst, ℕ, ◌<◌, ◌≡◌, refl, ◌∙◌, true, Option, none, some, Bool-cases, inl, inr, str_eq,
}
use smallstack_tabler.Scheduler.Schedules.{
  Calendar, Schedule, Next, fires, never, config_error, next_run,
}
use smallstack_tabler.Scheduler.Schedules.Step.{CalendarLaws, IsNear, next_run-later}
use smallstack_tabler.Scheduler.Tick.{ScheduledJob}
use smallstack_tabler.Scheduler.Save.Cadence.{
  in_timezone, NeedsCursor, NeedsCursor-changed, canonical_schedule-eq,
}
use smallstack_tabler.Scheduler.Save.{canonical_schedule, cursor_of, save}

canonical_schedule-IsNear :
    (c : Calendar) (x : Schedule) (now : ℕ) → IsNear x now → IsNear (canonical_schedule c x) now
unfolding canonical_schedule
canonical_schedule-IsNear c x now h = elim (Bool-cases (str_eq x.timezone "")) [
  | inl t ↦ rw (t, canonical_schedule) h
  | inr f ↦ rw (f, canonical_schedule) h
]

cursor_of-later :
    (c : Calendar) (x : Schedule) (now t : ℕ)
    → CalendarLaws c
    → IsNear x now
    → (n : Next) → next_run c x now ≡ n
    → cursor_of n ≡ some t
    → (next_run c x now ≡ fires t) × (now < t)
cursor_of-later c x now t l near (fires u) e h =
    let same : u ≡ t = cc in (e ∙ rw same, next_run-later c x now t l near (e ∙ rw same))
cursor_of-later c x now t l near never e h = absurd (none_some h)
  where
    none_some : none ≡ some t → ⊥
    none_some p = cc
cursor_of-later c x now t l near config_error e h = absurd (none_some h)
  where
    none_some : none ≡ some t → ⊥
    none_some p = cc

-- Saving an enabled job that has no cursor, or of whose fields one that makes up the cadence differs
-- from the stored row: a cursor that the save leaves is the next run of the new cadence, in the
-- calendar's spelling of its timezone, after the time of the save, and lies after that time, if the
-- calendar steps forward and the anchor of an interval is less than 10000 days old.
pub save-later :
    (c : Calendar) (now : ℕ) (stored : Option Schedule) (job : ScheduledJob) (t : ℕ)
    → CalendarLaws c
    → IsNear job.schedule now
    → job.enabled ≡ true
    → NeedsCursor c stored job
    → (save c now stored job).next_run_at ≡ some t
    → (next_run c (in_timezone c job.schedule) now ≡ fires t) × (now < t)
unfolding save
save-later c now stored job t l near on needs e =
    let changed = NeedsCursor-changed c stored job needs in
    subst (λ x. (next_run c x now ≡ fires t) × (now < t)) (canonical_schedule-eq c job.schedule)
      (cursor_of-later c (canonical_schedule c job.schedule) now t l
        (canonical_schedule-IsNear c job.schedule now near) _ refl (rw (on, changed, save) at e))
