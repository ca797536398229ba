-- ===== src/Tasks/Reaper/Pass.antt =====
-- apps/tasks/reaper.py: a whole pass, with its repair sweep and its sweep for late completions.
use smallstack_tabler.Prelude.{
  ℕ, String, Bool, true, false, List, [], ◌∷◌, Bool-cases, inl, inr, or_else,
}
use smallstack_tabler.Tasks.Model.{Cause, Row, Db}
use smallstack_tabler.Tasks.Env.{Env, QueueLaws}
use smallstack_tabler.Tasks.Retry.{maybe_retry}
use smallstack_tabler.Tasks.Retry.Invariant.{IsWf, maybe_retry-IsWf}
use smallstack_tabler.Tasks.Late.{is_still_lost, detect_rows, detect_late_completions, repair_batch}
use smallstack_tabler.Tasks.Late.Cancelled.{mark_superseded-IsWf}
use smallstack_tabler.Tasks.Chain.{repair_rows, repair_missed_retries}
use smallstack_tabler.Tasks.Reaper.{
  ReaperSettings, LostTask, ReapResult, prune_heartbeats, reap_one, reap_rows, reap_lost_tasks,
}
use smallstack_tabler.Tasks.Reaper.Reap.{reap_one-IsWf}

module _ {env : Env} (q : QueueLaws env) (now : ℕ) where
  repair_rows-IsWf :
      (is : List ℕ) (n : ℕ) (db : Db) → IsWf db → IsWf (repair_rows env now is n db).1
  unfolding repair_rows
  repair_rows-IsWf [] n db w = w
  repair_rows-IsWf (i ∷ is) n db w =
      repair_rows-IsWf is _ (maybe_retry env i Cause.raised now db).1
        (maybe_retry-IsWf q i Cause.raised now db w)

  repair_missed_retries-IsWf :
      (order : List Row → List Row) (db : Db)
      → IsWf db
      → IsWf (repair_missed_retries env order now db).1
  unfolding repair_missed_retries
  repair_missed_retries-IsWf order db w = repair_rows-IsWf _ 0 db w

  reap_rows-IsWf :
      (ts : List LostTask) (r : ReapResult) (db : Db) → IsWf db → IsWf (reap_rows env now ts r db).1
  unfolding reap_rows
  reap_rows-IsWf [] r db w = w
  reap_rows-IsWf (t ∷ ts) r db w =
      reap_rows-IsWf ts _ (reap_one env t now db).1 (reap_one-IsWf q t now db w)

detect_rows-IsWf : (now : ℕ) (rs : List Row) (db : Db) → IsWf db → IsWf (detect_rows now rs db).1
unfolding detect_rows
detect_rows-IsWf now [] db w = w
detect_rows-IsWf now (r ∷ rs) db w = elim (Bool-cases (is_still_lost r)) [
  | inl t ↦ rw (t, detect_rows) (detect_rows-IsWf now rs db w)
  | inr f ↦
      rw (f, detect_rows)
        (detect_rows-IsWf now rs _ (
          mark_superseded-IsWf r.id r.status r.call.task_path (or_else r.finished_at now) now db w))
]

detect_late_completions-IsWf :
    (now limit : ℕ) (db : Db) → IsWf db → IsWf (detect_late_completions now limit db).1
unfolding detect_late_completions
detect_late_completions-IsWf now limit db w = detect_rows-IsWf now _ db w

prune_heartbeats-IsWf : (now : ℕ) (db : Db) → IsWf db → IsWf (prune_heartbeats now db).1
unfolding prune_heartbeats
prune_heartbeats-IsWf now db w = record {
  unique_rows = w.unique_rows;
  unique_results = w.unique_results;
  unique_parents = w.unique_parents;
  in_budget = w.in_budget;
}

-- With a queue that keeps its laws, a whole pass keeps the tables well formed: the reaping, the
-- repair of missed retries, the sweep for late completions and the pruning of heartbeats, in that
-- order, and a dry run too.
pub reap_lost_tasks-IsWf :
    {env : Env} (q : QueueLaws env) (s : ReaperSettings) (order : List Row → List Row)
    (exclude : List String) (dry_run : Bool) (db_now now : ℕ) (db : Db)
    → IsWf db
    → IsWf (reap_lost_tasks env s order exclude dry_run db_now now db).1
unfolding reap_lost_tasks
reap_lost_tasks-IsWf q s order exclude true db_now now db w = w
reap_lost_tasks-IsWf q s order exclude false db_now now db w = prune_heartbeats-IsWf now _ (
    detect_late_completions-IsWf now repair_batch _
      (repair_missed_retries-IsWf q now order _ (reap_rows-IsWf q now _ _ db w)))
