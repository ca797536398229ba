-- ===== src/Tasks/Reaper/Verdicts.antt =====
-- apps/tasks/reaper.py: which RUNNING tasks are declared lost.
use smallstack_tabler.Prelude.{
  ℕ, ◌+◌, ◌≤◌, ◌≡◌, refl, ◌↔◌, true, false, String, Option, none, some, List, [], ◌∷◌, arith,
  or_else, get_last?, find, str_eq, ◌≢◌, ◌++◌, ap, All, Bool-cases, inl, inr, filter_rows,
  filter_rows-All, All-map,
}
use mathlib.Core.List.{Memᴰ}
use smallstack_tabler.Tasks.Model.{running, Row, Heartbeat, Db, LostReason}
use smallstack_tabler.Tasks.Reaper.{
  ReaperSettings, LostTask, lost_reason, judge, judge_rows, add_lost, find_lost_tasks, is_excluded,
  claimant, contains_text, has_worker_id, is_running,
}

-- A task whose worker has a heartbeat row is spared exactly when that worker has not exited and was
-- seen, by the database's clock, no longer ago than the threshold.
pub lost_reason-heartbeat :
    (s : ReaperSettings) (row : Row) (w : String) (h : Heartbeat) (db_now now : ℕ)
    → (lost_reason s row w (some h) db_now now ≡ none)
      ↔ ((h.stopped_at ≡ none) × (db_now ≤ h.last_seen_at + s.lost_after))
unfolding lost_reason
lost_reason-heartbeat s row w h db_now now = (λ e. ground arith, λ e. ground arith)

-- A task whose worker has no heartbeat row is spared exactly while it started, or else was enqueued,
-- within the orphan threshold of the given time.
pub lost_reason-no_heartbeat :
    (s : ReaperSettings) (row : Row) (w : String) (db_now now : ℕ)
    → (lost_reason s row w none db_now now ≡ none)
      ↔ (now ≤ or_else row.started_at row.enqueued_at + s.orphan)
unfolding lost_reason
lost_reason-no_heartbeat s row w db_now now = (λ e. ground arith, λ e. ground arith)

-- `w` is the last of the workers that claimed a row, blank if none did.
pub data IsLast (ws : List String) (w : String) : Type 0 where
  unclaimed : ws ≡ [] → w ≡ "" → IsLast ws w
  claimed : (before : List String) → ws ≡ before ++ w ∷ [] → IsLast ws w

IsLast-cons :
    (x : String) (ws : List String) (w : String) → IsLast ws w → ws ≢ [] → IsLast (x ∷ ws) w
IsLast-cons x ws w (unclaimed e f) ne = absurd (ne e)
IsLast-cons x ws w (claimed before e) ne = claimed (x ∷ before) (ap (λ l. x ∷ l) e)

get_last?-IsLast : (ws : List String) → IsLast ws (or_else (get_last? ws) "")
get_last?-IsLast [] = unclaimed refl refl
get_last?-IsLast (x ∷ []) = claimed [] refl
get_last?-IsLast (x ∷ y ∷ ys) =
    IsLast-cons x (y ∷ ys) (or_else (get_last? (y ∷ ys)) "") (get_last?-IsLast (y ∷ ys)) (λ e. cc)

-- Whether a worker is named, and among those excluded.
pub data IsSpared (exclude : List String) (w : String) : Type 0 where
  unnamed : str_eq w "" ≡ true → IsSpared exclude w
  not_listed : contains_text w exclude ≡ false → IsSpared exclude w

is_excluded-IsSpared :
    (exclude : List String) (w : String) → is_excluded exclude w ≡ false → IsSpared exclude w
is_excluded-IsSpared exclude w h = elim (Bool-cases (str_eq w "")) [
  | inl e ↦ unnamed e
  | inr f ↦ not_listed (ground arith)
]

-- What a task on the list of the lost is: a RUNNING row of the table, named by its id, its path and
-- the last worker that claimed it, who is not among those excluded, with the reason that the verdict
-- on that worker gives.
pub record IsFound (s : ReaperSettings) (exclude : List String) (db_now now : ℕ) (db : Db)
    (t : LostTask) : Type 0 where
  pub row : Row
  pub in_table : Memᴰ row db.rows
  pub runs : row.status ≡ running
  pub same_id : t.result_id ≡ row.id
  pub same_path : t.task_path ≡ row.call.task_path
  pub last_worker : IsLast row.worker_ids t.worker_id
  pub spared : IsSpared exclude t.worker_id
  pub verdict :
      lost_reason s row t.worker_id (find (has_worker_id t.worker_id) db.heartbeats) db_now now
      ≡ some t.reason

-- A verdict is given on the claimant, who is spared if excluded.
judge-some :
    (s : ReaperSettings) (exclude : List String) (beats : List Heartbeat) (db_now now : ℕ) (r : Row)
    (x : LostReason)
    → judge s exclude beats db_now now r ≡ some x
    → (is_excluded exclude (claimant r) ≡ false)
      × (lost_reason s r (claimant r) (find (has_worker_id (claimant r)) beats) db_now now ≡ some x)
unfolding judge
judge-some s exclude beats db_now now r x e = elim (Bool-cases (is_excluded exclude (claimant r))) [
  | inr f ↦ (f, rw (f, judge) at e)
  | inl t ↦ let no : none ≡ some x = rw (t, judge) at e in cc
]

running-eq : (r : Row) → is_running r ≡ true → r.status ≡ running
running-eq r h = ground arith

-- The rows that the pass goes over.
abbrev Runs : Db → Row → Type 0
Runs db r = Memᴰ r db.rows × (is_running r ≡ true)

module _ (s : ReaperSettings) (exclude : List String) (db_now now : ℕ) (db : Db) where
  add_lost-IsFound :
      (r : Row) (o : Option LostReason) (ts : List LostTask)
      → judge s exclude db.heartbeats db_now now r ≡ o
      → Runs db r
      → All (IsFound s exclude db_now now db) ts
      → All (IsFound s exclude db_now now db) (add_lost r o ts)
  add_lost-IsFound r none ts e h a = a
  add_lost-IsFound r (some x) ts e h a =
      let (spared, verdict) = judge-some s exclude db.heartbeats db_now now r x e in
      (
        record {
          row = r;
          in_table = h.0;
          runs = running-eq r h.1;
          same_id = refl;
          same_path = refl;
          last_worker = get_last?-IsLast r.worker_ids;
          spared = is_excluded-IsSpared exclude (claimant r) spared;
          verdict = verdict;
        },
        a,
      )

  judge_rows-IsFound :
      (rs : List Row)
      → All (Runs db) rs
      → All (IsFound s exclude db_now now db) (judge_rows s exclude db.heartbeats db_now now rs)
  unfolding judge_rows
  judge_rows-IsFound [] h = tt
  judge_rows-IsFound (r ∷ rs) h =
      add_lost-IsFound r (judge s exclude db.heartbeats db_now now r) _ refl h.0
        (judge_rows-IsFound rs h.1)

members : (xs : List Row) → All (λ r. Memᴰ r xs) xs
members [] = tt
members (x ∷ xs) = (
  Memᴰ.head refl,
  All-map (λ r. Memᴰ r xs) (λ r. Memᴰ r (x ∷ xs)) xs (λ r m. Memᴰ.tail m) (members xs),
)

-- A pass declares lost only RUNNING rows of the table, each by the verdict on the last worker that
-- claimed it, and never one whose last worker is excluded, such as the worker that makes the pass.
pub find_lost_tasks-IsFound :
    (s : ReaperSettings) (exclude : List String) (db_now now : ℕ) (db : Db)
    → All (IsFound s exclude db_now now db) (find_lost_tasks s exclude db_now now db).1
unfolding find_lost_tasks
find_lost_tasks-IsFound s exclude db_now now db =
    judge_rows-IsFound s exclude db_now now db (filter_rows is_running db.rows) (
      filter_rows-All (Runs db) is_running db.rows (
        All-map (λ r. Memᴰ r db.rows) (λ r. is_running r ≡ true → Runs db r) db.rows
          (λ r m h. (m, h)) (members db.rows)))
