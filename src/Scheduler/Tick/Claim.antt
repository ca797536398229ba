-- ===== src/Scheduler/Tick/Claim.antt =====
-- apps/scheduler/services.py: the atomic claim of a due job by several ticks.
use smallstack_tabler.Prelude.{
  ℕ, ◌≤◌, ◌<◌, ◌≡◌, ◌≢◌, refl, ◌∙◌, Bool, true, false, not, ◌&&◌, Option, none, some, List, arith,
  any_row, any_row-update_where, any_row-update_self, update_where, Bool-cases, inl, inr,
  same_option, leb, if◌then◌else◌,
}
use smallstack_tabler.Scheduler.Schedules.{Next, fires, never, config_error, next_run}
use smallstack_tabler.Scheduler.Schedules.Step.{CalendarLaws, IsNear, next_run-later}
use smallstack_tabler.Scheduler.Tick.{
  ScheduledJob, State, TickEnv, TickResult, CatchUp, run_once, skip, Submitted, enqueued,
  unresolvable, refused, is_claimable, has_job_id, update_job, record_run, enqueue_and_record,
  enqueued_job, finish_fire, fire, after_missed, catch_up_or_fire, after_claim, claim,
  claim_and_run, process_job, previous_run_active, count_retired,
}

-- Whether a tick that saw the due time `o` can still claim job `i`.
abbrev pub claimable : ℕ → ℕ → State → Bool
claimable i o s = any_row (is_claimable i o) s.jobs

claimable-update :
    (i o k : ℕ) (f : ScheduledJob → ScheduledJob) (jobs : List ScheduledJob)
    → ((j : ScheduledJob) → (f j).id ≡ j.id)
    → ((j : ScheduledJob) → (f j).next_run_at ≡ j.next_run_at)
    → any_row (is_claimable i o) (update_where (has_job_id k) f jobs)
      ≡ any_row (is_claimable i o) jobs
claimable-update i o k f jobs same_id same_next =
    any_row-update_where (is_claimable i o) (has_job_id k) f jobs (λ j. kept j (has_job_id k j))
  where
    kept :
        (j : ScheduledJob) (b : Bool) → is_claimable i o (if b then f j else j) ≡ is_claimable i o j
    kept j true = rw (same_id j, same_next j)
    kept j false = refl

finish_fire-claimable :
    (i o : ℕ) (x : Submitted) (job : ScheduledJob) (observed now : ℕ) (r : TickResult) (s : State)
    → claimable i o (finish_fire x job observed now r s).1 ≡ claimable i o s
unfolding finish_fire enqueue_and_record record_run update_job
finish_fire-claimable i o (enqueued row) job observed now r s =
    claimable-update i o job.id (enqueued_job now) s.jobs (λ j. refl) (λ j. refl)
finish_fire-claimable i o unresolvable job observed now r s =
    claimable-update i o job.id _ s.jobs (λ j. refl) (λ j. refl)
finish_fire-claimable i o refused job observed now r s =
    claimable-update i o job.id _ s.jobs (λ j. refl) (λ j. refl)

after_missed-claimable :
    (i o : ℕ) (m : Option ℕ) (env : TickEnv) (job : ScheduledJob) (observed now : ℕ)
    (r : TickResult) (s : State)
    → claimable i o (after_missed m env job observed now r s).1 ≡ claimable i o s
unfolding after_missed fire record_run
after_missed-claimable i o none env job observed now r s = refl
after_missed-claimable i o (some m) env job observed now r s = elim (Bool-cases (leb 1 m)) [
  | inl t ↦ rw (t, after_missed)
  | inr f ↦ rw (f, after_missed) (finish_fire-claimable i o _ job observed now r s)
]

catch_up-claimable :
    (i o : ℕ) (k : CatchUp) (env : TickEnv) (job : ScheduledJob) (observed now : ℕ) (r : TickResult)
    (s : State)
    → claimable i o (catch_up_or_fire k env job observed now r s).1 ≡ claimable i o s
unfolding catch_up_or_fire fire
catch_up-claimable i o run_once env job observed now r s =
    finish_fire-claimable i o _ job observed now r s
catch_up-claimable i o skip env job observed now r s =
    after_missed-claimable i o _ env job observed now r s

after_claim-claimable :
    (i o : ℕ) (env : TickEnv) (job : ScheduledJob) (observed now : ℕ) (r : TickResult) (s : State)
    → claimable i o (after_claim env job observed now r s).1 ≡ claimable i o s
unfolding after_claim record_run
after_claim-claimable i o env job observed now r s =
    elim (Bool-cases (not job.allow_overlap && previous_run_active env job now s)) [
      | inl t ↦ rw (t, after_claim)
      | inr f ↦ rw (f, after_claim) (catch_up-claimable i o job.catch_up env job observed now r s)
    ]

-- Behind a claim that moves the cursor, nobody else can claim the same due time.
claim_and_run-claimed :
    (env : TickEnv) (job : ScheduledJob) (observed : ℕ) (next : Option ℕ) (now : ℕ) (r : TickResult)
    (s : State)
    → same_option next observed ≡ false
    → claimable job.id observed (claim_and_run env job observed next now r s).1 ≡ false
unfolding claim_and_run claim
claim_and_run-claimed env job observed next now r s h =
    elim (Bool-cases (claimable job.id observed s)) [
      | inr f ↦ rw (f, claim_and_run) f
      | inl t ↦
          rw (t, claim_and_run)
            (after_claim-claimable job.id observed env job observed now (count_retired next r)
                (claim job.id observed next s)
              ∙ any_row-update_self (is_claimable job.id observed) _ s.jobs
                  (λ x _. ground (arith, h)))
    ]

process_job-claimed :
    (env : TickEnv) (job : ScheduledJob) (observed now : ℕ) (r : TickResult) (s : State)
    → CalendarLaws env.calendar
    → IsNear job.schedule now
    → observed ≤ now
    → job.next_run_at ≡ some observed
    → next_run env.calendar job.schedule now ≢ config_error
    → claimable job.id observed (process_job env job now r s).1 ≡ false
unfolding process_job
process_job-claimed env job observed now r s l near due at ok =
    go (next_run env.calendar job.schedule now) refl
  where
    go :
        (n : Next)
        → next_run env.calendar job.schedule now ≡ n
        → claimable job.id observed (process_job env job now r s).1 ≡ false
    go config_error e = absurd (ok e)
    go never e = rw (at, e, process_job) (claim_and_run-claimed env job observed none now r s refl)
    go (fires t) e =
        rw (at, e, process_job)
          (claim_and_run-claimed env job observed (some t) now r s (
            let later : now < t = next_run-later env.calendar job.schedule now t l near e in
            ground arith))

lost_claim :
    (env : TickEnv) (job : ScheduledJob) (observed : ℕ) (next : Option ℕ) (now : ℕ) (r : TickResult)
    (s : State)
    → claimable job.id observed s ≡ false
    → claim_and_run env job observed next now r s ≡ (r, s)
unfolding claim_and_run
lost_claim env job observed next now r s h = rw (h, claim_and_run)

process_job-unclaimable :
    (env : TickEnv) (job : ScheduledJob) (observed now : ℕ) (r : TickResult) (s : State)
    → job.next_run_at ≡ some observed
    → next_run env.calendar job.schedule now ≢ config_error
    → claimable job.id observed s ≡ false
    → process_job env job now r s ≡ (r, s)
unfolding process_job
process_job-unclaimable env job observed now r s at ok claimed =
    go (next_run env.calendar job.schedule now) refl
  where
    go :
        (n : Next)
        → next_run env.calendar job.schedule now ≡ n
        → process_job env job now r s ≡ (r, s)
    go config_error e = absurd (ok e)
    go never e = rw (at, e, process_job) (lost_claim env job observed none now r s claimed)
    go (fires t) e = rw (at, e, process_job) (lost_claim env job observed (some t) now r s claimed)

-- Two ticks that read a due job in the same row do not both act on it. If the calendar steps
-- forward, the anchor of an interval is less than 10000 days old, and both ticks find a valid
-- cadence, then the second, at whatever time it runs, leaves the tables and its counts as the
-- first left them.
pub process_job-once :
    (env : TickEnv) (job : ScheduledJob) (observed now now' : ℕ) (r r' : TickResult) (s : State)
    → CalendarLaws env.calendar
    → IsNear job.schedule now
    → observed ≤ now
    → job.next_run_at ≡ some observed
    → next_run env.calendar job.schedule now ≢ config_error
    → next_run env.calendar job.schedule now' ≢ config_error
    → process_job env job now' r' (process_job env job now r s).1
      ≡ (r', (process_job env job now r s).1)
process_job-once env job observed now now' r r' s l near due at ok ok' =
    process_job-unclaimable env job observed now' r' (process_job env job now r s).1 at ok'
      (process_job-claimed env job observed now r s l near due at ok)
