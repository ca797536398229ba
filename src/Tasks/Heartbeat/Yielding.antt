-- ===== src/Tasks/Heartbeat/Yielding.antt =====
-- apps/tasks/heartbeat.py: the reaper passes of a worker that misses beats.
use smallstack_tabler.Prelude.{
  ℕ, zero, suc, ◌+◌, ◌<◌, ◌≡◌, refl, Bool, false, List, [], ◌∷◌, arith, ◌||◌,
}
use smallstack_tabler.Tasks.Heartbeat.{Thread, thread_beat, may_reap, thread_turn, run}

-- Beats that all fail.
abbrev pub failures : ℕ → List Bool
failures zero = []
failures (suc n) = false ∷ failures n

abbrev pub any_true : List Bool → Bool
any_true [] = false
any_true (b ∷ bs) = b || any_true bs

-- Once a beat has been missed, no reaper pass is made for as long as every further beat fails too,
-- and the missed beats are counted.
pub run-failures :
    (n : ℕ) (t : Thread)
    → 0 < t.missed_beats
    → (any_true (run (failures n) t).0 ≡ false)
      × ((run (failures n) t).1.missed_beats ≡ t.missed_beats + n)
unfolding run thread_turn thread_beat may_reap
run-failures zero t h = (refl, omega arith)
run-failures (suc n) t h =
    let u = (thread_turn false t).1 in
    let (quiet, counted) = run-failures n u (omega arith) in (ground arith, omega arith)
