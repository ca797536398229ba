-- ===== src/Tasks/Heartbeat/Spared.antt =====
-- apps/tasks/heartbeat.py: what a beat is worth to the reaper.
use smallstack_tabler.Prelude.{
  All, All-map, ◌≢◌, subst, ℕ, ◌+◌, ◌≤◌, ◌≡◌, refl, ap, ◌∙◌, String, Bool, true, false, none, some,
  List, find, find-test, find-update_where, if◌then◌else◌,
}
use smallstack_tabler.Tasks.Model.{Row, Heartbeat, Db}
use smallstack_tabler.Tasks.Reaper.{
  ReaperSettings, LostTask, has_worker_id, lost_reason, find_lost_tasks,
}
use smallstack_tabler.Tasks.Reaper.Verdicts.{
  IsLast, IsFound, lost_reason-heartbeat, find_lost_tasks-IsFound,
}
use mathlib.Core.List.{Memᴰ}
use smallstack_tabler.Tasks.Heartbeat.{beat}

beat-found :
    (w : String) (t : ℕ) (db : Db) (h : Heartbeat)
    → find (has_worker_id w) db.heartbeats ≡ some h
    → find (has_worker_id w) (beat w t db).heartbeats ≡ some (record h { last_seen_at = t })
unfolding beat
beat-found w t db h e =
    let own : has_worker_id w h ≡ true = find-test (has_worker_id w) db.heartbeats h e in
    find-update_where (has_worker_id w) (has_worker_id w) (λ x. record x { last_seen_at = t })
      db.heartbeats (λ x. kept x (has_worker_id w x))
    ∙ rw e (ap some (rw own))
  where
    kept :
        (x : Heartbeat) (b : Bool)
        → has_worker_id w (if b then record x { last_seen_at = t } else x) ≡ has_worker_id w x
    kept x true = refl
    kept x false = refl

-- A task on the list of the lost is a row of the table that another worker than `w` claimed last.
pub record IsOther (w : String) (db : Db) (t : LostTask) : Type 0 where
  pub row : Row
  pub in_table : Memᴰ row db.rows
  pub same_id : t.result_id ≡ row.id
  pub last_worker : IsLast row.worker_ids t.worker_id
  pub other : t.worker_id ≢ w

lost_reason-beat :
    (s : ReaperSettings) (row : Row) (db : Db) (w : String) (h : Heartbeat) (t db_now now : ℕ)
    → find (has_worker_id w) db.heartbeats ≡ some h
    → h.stopped_at ≡ none
    → db_now ≤ t + s.lost_after
    → lost_reason s row w (find (has_worker_id w) (beat w t db).heartbeats) db_now now ≡ none
lost_reason-beat s row db w h t db_now now e running near =
    rw (beat-found w t db h e)
      ((lost_reason-heartbeat s row w (record h { last_seen_at = t }) db_now now).1 (running, near))

-- A worker that has not exited keeps its tasks by its beat: a pass that reads the tables as the beat
-- leaves them finds no task lost that this worker was the last to claim, until the threshold has
-- passed since the beat by the database's clock, whatever the pass excludes and its own clock reads.
pub find_lost_tasks-beat :
    (s : ReaperSettings) (exclude : List String) (db : Db) (w : String) (h : Heartbeat)
    (t db_now now : ℕ)
    → find (has_worker_id w) db.heartbeats ≡ some h
    → h.stopped_at ≡ none
    → db_now ≤ t + s.lost_after
    → All (IsOther w (beat w t db)) (find_lost_tasks s exclude db_now now (beat w t db)).1
find_lost_tasks-beat s exclude db w h t db_now now e running near =
    All-map (IsFound s exclude db_now now (beat w t db)) (IsOther w (beat w t db))
      (find_lost_tasks s exclude db_now now (beat w t db)).1
      (λ l f. record {
        row = f.row;
        in_table = f.in_table;
        same_id = f.same_id;
        last_worker = f.last_worker;
        other = spared l f;
      })
      (find_lost_tasks-IsFound s exclude db_now now (beat w t db))
  where
    spared : (l : LostTask) → IsFound s exclude db_now now (beat w t db) l → l.worker_id ≢ w
    spared l f same =
        let lost : lost_reason s f.row w (find (has_worker_id w) (beat w t db).heartbeats) db_now
              now
            ≡ some l.reason =
          subst
            (λ x.
              lost_reason s f.row x (find (has_worker_id x) (beat w t db).heartbeats) db_now now
              ≡ some l.reason)
            same f.verdict in
        let kept = lost_reason-beat s f.row db w h t db_now now e running near in cc
