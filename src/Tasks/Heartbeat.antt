-- ===== src/Tasks/Heartbeat.antt =====
-- apps/tasks/heartbeat.py: a worker's heartbeat row, and the thread that beats and reaps.
pub mod Yielding
pub mod Spared
use smallstack_tabler.Prelude.{
  ℕ, zero, suc, ◌+◌, ◌%◌, max, String, Bool, true, false, not, Option, none, some, List, [], ◌∷◌,
  ◌++◌, leb, str_eq, any_row, update_where, ◌==◌, if◌then◌else◌,
}
use smallstack_tabler.Tasks.Model.{Heartbeat, Db}
use smallstack_tabler.Tasks.Reaper.{has_worker_id}

abbrev pub max_missed_beats_before_yielding : ℕ
max_missed_beats_before_yielding = 2

-- `register_worker`: `update_or_create` on the worker id. `host`, `label` and `queues` are cut to
-- their columns by the caller; `now` is the database's clock.
unfoldable pub register_worker : Heartbeat → ℕ → Db → Db
register_worker h now db =
    let fresh : Heartbeat = record h { last_seen_at = now; stopped_at = none } in
    if any_row (has_worker_id h.worker_id) db.heartbeats
    then record db {
      heartbeats = update_where (has_worker_id h.worker_id) (λ _. fresh) db.heartbeats;
    }
    else record db { heartbeats = db.heartbeats ++ fresh ∷ [] }

unfoldable pub beat : String → ℕ → Db → Db
beat w now db = record db {
  heartbeats = update_where (has_worker_id w) (λ h. record h { last_seen_at = now }) db.heartbeats;
}

unfoldable pub mark_stopped : String → ℕ → Db → Db
mark_stopped w now db = record db {
  heartbeats =
      update_where (has_worker_id w) (λ h. record h { last_seen_at = now; stopped_at = some now })
        db.heartbeats;
}

-- The counters of `HeartbeatThread`; `beats` is the local variable of `run`.
pub record Thread : Type 0 where
  pub reap_every : ℕ
  pub missed_beats : ℕ
  pub beats : ℕ

-- `__init__`: `max(1, reap_every)`.
unfoldable pub new_thread : ℕ → Thread
new_thread reap_every = record { reap_every = max 1 reap_every; missed_beats = 0; beats = 0 }

-- `_beat`: `wrote` says whether the write of the heartbeat row succeeded.
unfoldable pub thread_beat : Bool → Thread → Thread
thread_beat true t = record t { missed_beats = 0 }
thread_beat false t = record t { missed_beats = suc t.missed_beats }

-- The test of `_reap`: whether the pass is made.
unfoldable pub may_reap : Thread → Bool
may_reap t = not (leb max_missed_beats_before_yielding t.missed_beats)

-- One turn of the loop of `run`, and whether it made a reaper pass.
unfoldable pub thread_turn : Bool → Thread → Bool × Thread
thread_turn wrote t =
    let b = thread_beat wrote t in
    let c = record b { beats = suc b.beats } in
    (if c.beats % c.reap_every == 0 then may_reap c else false, c)

-- `run` over the outcomes of its beats: the passes made, in order.
unfoldable pub run : List Bool → Thread → List Bool × Thread
run [] t = ([], t)
run (wrote ∷ ws) t =
    let (pass, u) = thread_turn wrote t in let (passes, v) = run ws u in (pass ∷ passes, v)
