-- ===== src/Scheduler/Reconcile/Settled.antt =====
-- apps/scheduler/services.py: what `reconcile_run_outcomes` makes of the runs.
use smallstack_tabler.Prelude.{
  ℕ, zero, suc, ◌+◌, ◌≤◌, ◌≡◌, refl, sym, ◌∙◌, Bool, true, false, not, Option, none, some, List, [],
  ◌∷◌, ◌++◌, map, arith, All, Bool-cases, inl, inr, is_none, if◌then◌else◌, count_where,
}
use smallstack_tabler.Tasks.Model.{Db, ready, running, successful}
use smallstack_tabler.Tasks.Model as Queue
use smallstack_tabler.Tasks.Env.{Env}
use smallstack_tabler.Tasks.Chain.{ChainStatus, engine, retrying, ChainOutcome}
use smallstack_tabler.Scheduler.Tick.{RunStatus, ScheduledJob, ScheduledJobRun, State}
use smallstack_tabler.Scheduler.Reconcile.{
  ReconcileEnv, is_reconcilable, terminal, engine_result, promote, notify_failure, settle, Progress,
  reconcile_run, reconcile_runs, reconcile_run_outcomes,
}
use smallstack_tabler.Scheduler.Reconcile.Kept.{Keeps, notify_failure-Keeps, Keeps-trans}
use smallstack_tabler.Scheduler.Reconcile.Expected.{
  settled, is_final, waits, promoted, is_finished, is_known, promoted-known, is_finished-known,
  promoted-other, count-other, count-queued, known-found,
}

reconcile_run-known :
    (env : ReconcileEnv) (now : ℕ) (all : List ScheduledJobRun) (r : ScheduledJobRun)
    (jobs : List ScheduledJob) (db : Db) (o : ChainOutcome)
    → engine_result env.tasks_env r.task_result_id now db ≡ some o
    → reconcile_run env now all r jobs db ≡ settle (terminal o.status) env now all o r jobs db
unfolding reconcile_run
reconcile_run-known env now all r jobs db o e = rw (e, reconcile_run) refl

-- What one turn makes of a queued run whose chain is known.
abbrev IsTurned : Env → ℕ → Db → List ScheduledJobRun → Bool → Progress → Type 0
IsTurned env now db runs b p =
    (p.runs ≡ runs) × (p.updated ≡ (if b then 1 else 0)) × Keeps env now db p.tasks

-- The turn agrees with the status of the chain.
abbrev by_terminal : Option RunStatus → ChainOutcome → ScheduledJobRun → ScheduledJobRun
by_terminal none o r = r
by_terminal (some new) o r = promote new o r

terminal-settled :
    (status : ChainStatus) (o : ChainOutcome) (r : ScheduledJobRun)
    → (by_terminal (terminal status) o r ≡ settled status o r)
      × (not (is_none (terminal status)) ≡ is_final status)
unfolding settled promote
terminal-settled (engine successful) o r = (refl, refl)
terminal-settled (engine Queue.failed) o r = (refl, refl)
terminal-settled (engine ready) o r = (refl, refl)
terminal-settled (engine running) o r = (refl, refl)
terminal-settled retrying o r = (refl, refl)

settle-IsTurned :
    (t : Option RunStatus) (env : ReconcileEnv) (now : ℕ) (all : List ScheduledJobRun)
    (o : ChainOutcome) (r : ScheduledJobRun) (jobs : List ScheduledJob) (db db' : Db)
    → Keeps env.tasks_env now db db'
    → IsTurned env.tasks_env now db
        (by_terminal t o r ∷ [])
        (not (is_none t))
        (settle t env now all o r jobs db')
unfolding settle
settle-IsTurned none env now all o r jobs db db' k = (refl, refl, k)
settle-IsTurned (some new) env now all o r jobs db db' k = (
  refl,
  refl,
  Keeps-trans env.tasks_env now db db' (notify_failure env new (promote new o r) now db') k
      (notify_failure-Keeps env new (promote new o r) now db'),
)

reconcile_run-IsTurned :
    (env : ReconcileEnv) (now : ℕ) (all : List ScheduledJobRun) (r : ScheduledJobRun)
    (jobs : List ScheduledJob) (db db' : Db) (o : ChainOutcome)
    → Keeps env.tasks_env now db db'
    → is_reconcilable r ≡ true
    → engine_result env.tasks_env r.task_result_id now db ≡ some o
    → IsTurned env.tasks_env now db
        (promoted env.tasks_env now db r ∷ [])
        (is_finished env.tasks_env now db r)
        (reconcile_run env now all r jobs db')
unfolding Keeps
reconcile_run-IsTurned env now all r jobs db db' o k q e =
    rw
      (
        promoted-known env.tasks_env now db r o q e,
        sym (terminal-settled o.status o r).0,
        is_finished-known env.tasks_env now db r o q e,
        sym (terminal-settled o.status o r).1,
        reconcile_run-known env now all r jobs db' o (k r.task_result_id o e),
      )
      (settle-IsTurned (terminal o.status) env now all o r jobs db db' k)

promoted-none :
    (env : Env) (now : ℕ) (db : Db) (rs : List ScheduledJobRun)
    → count_where waits rs ≤ 0
    → (map (promoted env now db) rs ≡ rs) × (count_where (is_finished env now db) rs ≡ 0)
unfolding count_where
promoted-none env now db [] c = (refl, refl)
promoted-none env now db (r ∷ rs) c = elim (Bool-cases (is_reconcilable r)) [
  | inl q ↦ (let no = count-queued r rs 0 q c in absurd (omega arith))
  | inr q ↦
      let (same, unfinished) = promoted-other env now db r q in
      let (rest, none_finished) = promoted-none env now db rs (count-other r rs 0 q c) in
      rw (same, unfinished, rest, none_finished) (refl, refl)
]

reconcile_runs-other :
    (env : ReconcileEnv) (now : ℕ) (all : List ScheduledJobRun) (n : ℕ) (r : ScheduledJobRun)
    (rs : List ScheduledJobRun) (jobs : List ScheduledJob) (db : Db)
    → is_reconcilable r ≡ false
    → ((reconcile_runs env now all (suc n) (r ∷ rs) jobs db).runs
        ≡ r ∷ (reconcile_runs env now all (suc n) rs jobs db).runs)
      × ((reconcile_runs env now all (suc n) (r ∷ rs) jobs db).updated
          ≡ (reconcile_runs env now all (suc n) rs jobs db).updated)
unfolding reconcile_runs
reconcile_runs-other env now all n r rs jobs db q =
    (rw (q, reconcile_runs) refl, rw (q, reconcile_runs) refl)

reconcile_runs-queued :
    (env : ReconcileEnv) (now : ℕ) (all : List ScheduledJobRun) (n : ℕ) (r : ScheduledJobRun)
    (rs : List ScheduledJobRun) (jobs : List ScheduledJob) (db : Db)
    → is_reconcilable r ≡ true
    → let one = reconcile_run env now all r jobs db in
      ((reconcile_runs env now all (suc n) (r ∷ rs) jobs db).runs
        ≡ one.runs ++ (reconcile_runs env now all n rs one.jobs one.tasks).runs)
      × ((reconcile_runs env now all (suc n) (r ∷ rs) jobs db).updated
          ≡ one.updated + (reconcile_runs env now all n rs one.jobs one.tasks).updated)
unfolding reconcile_runs
reconcile_runs-queued env now all n r rs jobs db q =
    (rw (q, reconcile_runs) refl, rw (q, reconcile_runs) refl)

reconcile_runs-empty :
    (env : ReconcileEnv) (now : ℕ) (all : List ScheduledJobRun) (limit : ℕ)
    (jobs : List ScheduledJob) (db : Db)
    → ((reconcile_runs env now all limit [] jobs db).runs ≡ [])
      × ((reconcile_runs env now all limit [] jobs db).updated ≡ 0)
unfolding reconcile_runs
reconcile_runs-empty env now all zero jobs db = (refl, refl)
reconcile_runs-empty env now all (suc n) jobs db = (refl, refl)

reconcile_runs-zero :
    (env : ReconcileEnv) (now : ℕ) (all : List ScheduledJobRun) (r : ScheduledJobRun)
    (rs : List ScheduledJobRun) (jobs : List ScheduledJob) (db : Db)
    → ((reconcile_runs env now all 0 (r ∷ rs) jobs db).runs ≡ r ∷ rs)
      × ((reconcile_runs env now all 0 (r ∷ rs) jobs db).updated ≡ 0)
unfolding reconcile_runs
reconcile_runs-zero env now all r rs jobs db = (refl, refl)

append_one :
    {xs ys : List ScheduledJobRun} {x : ScheduledJobRun} {zs : List ScheduledJobRun}
    → xs ≡ x ∷ []
    → ys ≡ zs
    → xs ++ ys ≡ x ∷ zs
append_one f g = rw (f, g) refl

counted :
    {m n k : ℕ} (b : Bool) → m ≡ (if b then 1 else 0) → n ≡ k → m + n ≡ (if b then suc k else k)
counted true f g = omega arith
counted false f g = omega arith

reconcile_runs-promoted :
    (env : ReconcileEnv) (now : ℕ) (all : List ScheduledJobRun) (limit : ℕ)
    (rs : List ScheduledJobRun) (jobs : List ScheduledJob) (db db' : Db)
    → Keeps env.tasks_env now db db'
    → All (λ r. is_known env.tasks_env now db r ≡ true) rs
    → count_where waits rs ≤ limit
    → ((reconcile_runs env now all limit rs jobs db').runs ≡ map (promoted env.tasks_env now db) rs)
      × ((reconcile_runs env now all limit rs jobs db').updated
          ≡ count_where (is_finished env.tasks_env now db) rs)
unfolding count_where
reconcile_runs-promoted env now all limit [] jobs db db' k a c =
    reconcile_runs-empty env now all limit jobs db'
reconcile_runs-promoted env now all zero (r ∷ rs) jobs db db' k a c =
    let (same, none_finished) = promoted-none env.tasks_env now db (r ∷ rs) c in
    let (runs_eq, updated_eq) = reconcile_runs-zero env now all r rs jobs db' in
    (runs_eq ∙ sym same, updated_eq ∙ sym none_finished)
reconcile_runs-promoted env now all (suc n) (r ∷ rs) jobs db db' k a c =
    elim (Bool-cases (is_reconcilable r)) [
      | inr q ↦
          let (same, unfinished) = promoted-other env.tasks_env now db r q in
          let (runs_eq, updated_eq) = reconcile_runs-other env now all n r rs jobs db' q in
          let (ih, ih') =
            reconcile_runs-promoted env now all (suc n) rs jobs db db' k a.1
              (count-other r rs (suc n) q c) in
          rw (runs_eq, updated_eq, ih, ih', same, unfinished) (refl, refl)
      | inl q ↦
          let (o, e) = known-found env.tasks_env now db r q a.0 in
          let one = reconcile_run env now all r jobs db' in
          let (runs_one, updated_one, k') =
            reconcile_run-IsTurned env now all r jobs db db' o k q e in
          let (runs_eq, updated_eq) = reconcile_runs-queued env now all n r rs jobs db' q in
          let less = count-queued r rs (suc n) q c in
          let (ih, ih') =
            reconcile_runs-promoted env now all n rs one.jobs db one.tasks k' a.1 (omega arith) in
          (
            runs_eq ∙ append_one runs_one ih,
            updated_eq ∙ counted (is_finished env.tasks_env now db r) updated_one ih',
          )
    ]

-- If no chain of a queued run is pruned and at most `limit` runs are queued, one call settles every
-- queued run whose chain has ended: as a success where the chain's latest attempt is SUCCESSFUL, as
-- a failure where it is FAILED, with its row, its number and the note in the message. It leaves the
-- other runs as they are, and mails of failures that it enqueues meanwhile make no difference. It
-- returns how many it settled.
pub reconcile_run_outcomes-promoted :
    (env : ReconcileEnv) (now limit : ℕ) (s : State)
    → All (λ r. is_known env.tasks_env now s.tasks r ≡ true) s.runs
    → count_where waits s.runs ≤ limit
    → ((reconcile_run_outcomes env now limit s).1.runs
        ≡ map (promoted env.tasks_env now s.tasks) s.runs)
      × ((reconcile_run_outcomes env now limit s).0
          ≡ count_where (is_finished env.tasks_env now s.tasks) s.runs)
unfolding reconcile_run_outcomes Keeps
reconcile_run_outcomes-promoted env now limit s a c =
    reconcile_runs-promoted env now s.runs limit s.runs s.jobs s.tasks s.tasks (λ i o h. h) a c
