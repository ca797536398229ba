-- ===== src/Tasks/Chain/Walk.antt =====
-- apps/tasks/reliability.py: the walk along a chain to its latest attempt.
use smallstack_tabler.Prelude.{
  ℕ, zero, suc, ◌+◌, ◌≤◌, ◌<◌, ◌≡◌, refl, subst, sym, Bool, true, false, Option, none, some, arith,
  any_row, find, find-test, Bool-cases, Option-cases, inl, inr, Unique, All, find-All, ==→eq,
  ==_refl, find-Unique, is_none, same_option,
}
use smallstack_tabler.Tasks.Model.{
  Attempt, Db, has_row_id, has_parent_id, child_of, row_of, same_result,
}
use smallstack_tabler.Tasks.Env.{Env}
use smallstack_tabler.Tasks.Decide.{attempt_info}
use smallstack_tabler.Tasks.Retry.Invariant.{IsWf, Within, attempt_info-Within}
use smallstack_tabler.Tasks.Chain.{
  Cursor, Turn, stop, go_on, start, turn, walk, max_chain, ChainOutcome, chain_outcome,
}

-- A retry has a higher attempt number than the attempt that it replaced.
abbrev pub Above : Db → Option ℕ → ℕ → Type 0
Above db none n = Unit
Above db (some p) n = (attempt_info p db).attempt < n

abbrev pub IsLinked : Db → Type 0
IsLinked db = All (λ (a : Attempt). Above db a.parent_id a.attempt) db.attempts

-- `j` is reached from `i` by following retries.
pub data Descends (db : Db) : ℕ → ℕ → Type 0 where
  here : {i : ℕ} → Descends db i i
  retry :
      {i j : ℕ} (c : Attempt) → child_of i db ≡ some c → Descends db c.result_id j → Descends db i j

-- No retry of `i` was ever run: it has none, or its only one was cancelled and left alone.
pub data IsLatest (db : Db) (i : ℕ) : Type 0 where
  no_child : child_of i db ≡ none → IsLatest db i
  cancelled :
      (c : Attempt)
      → child_of i db ≡ some c
      → c.retry_cancelled ≡ true
      → any_row (has_parent_id c.result_id) db.attempts ≡ false
      → IsLatest db i

-- What one turn does, by its outcome.
TurnFacts : Db → Cursor → Turn → Type 0
TurnFacts db c (stop d) = (d.current ≡ c.current) × IsLatest db c.current
TurnFacts db c (go_on d) =
    (a : Attempt) × (child_of c.current db ≡ some a)
    × (d.current ≡ a.result_id)
    × (d.attempt ≡ a.attempt)

turn_facts : (db : Db) (c : Cursor) → TurnFacts db c (turn db c)
unfolding turn TurnFacts
turn_facts db c = elim (Option-cases (child_of c.current db)) [
  | inl e ↦ rw (e, turn) (refl, no_child e)
  | inr (a, e) ↦ elim (Bool-cases (is_none a.parent_completed_at)) [
    | inl f ↦ rw (e, f, turn) (a, e, refl, refl)
    | inr f ↦ elim (Bool-cases (a.retry_cancelled)) [
      | inr g ↦ rw (e, f, g, turn) (a, e, refl, refl)
      | inl g ↦ elim (Bool-cases (any_row (has_parent_id a.result_id) db.attempts)) [
        | inl h ↦ rw (e, f, g, h, turn) (a, e, refl, refl)
        | inr h ↦ rw (e, f, g, h, turn) (refl, cancelled a e g h)
      ]
    ]
  ]
]

attempt_info-child :
    (q : Attempt → Bool) (db : Db) (a : Attempt)
    → Unique same_result db.attempts
    → find q db.attempts ≡ some a
    → (attempt_info a.result_id db).attempt ≡ a.attempt
unfolding attempt_info
attempt_info-child q db a u e =
    rw (find-Unique same_result q db.attempts a u (==_refl a.result_id) e, attempt_info)

-- The cursor's attempt number is at most the one on record for its attempt.
abbrev Fits : Db → Cursor → Type 0
Fits db c = c.attempt ≤ (attempt_info c.current db).attempt

child-Above :
    (db : Db) (i : ℕ) (a : Attempt)
    → IsLinked db
    → child_of i db ≡ some a
    → (attempt_info i db).attempt < a.attempt
child-Above db i a l e =
    above_of a.parent_id
      (find-All (λ (x : Attempt). Above db x.parent_id x.attempt) (has_parent_id i) db.attempts a l
        e)
      (find-test (has_parent_id i) db.attempts a e)
  where
    above_of :
        (p : Option ℕ)
        → Above db p a.attempt
        → same_option p i ≡ true
        → (attempt_info i db).attempt < a.attempt
    above_of none h t = cc
    above_of (some p) h t = rw (← ==→eq p i t) h

-- The walk from `c` ends, within its fuel, at the latest attempt that `c` leads to.
abbrev EndsAtLatest : Db → Cursor → Cursor → Type 0
EndsAtLatest db c d = Descends db c.current d.current × IsLatest db d.current

module _ (db : Db) (u : Unique same_result db.attempts) (l : IsLinked db)
    (bound : All (λ (a : Attempt). a.attempt ≤ max_chain) db.attempts) where
  after_turn :
      (fuel : ℕ) (c : Cursor) (t : Turn)
      → turn db c ≡ t
      → TurnFacts db c t
      → Fits db c
      → max_chain < c.attempt + suc fuel
      → ((d : Cursor)
          → Fits db d
          → max_chain < d.attempt + fuel
          → d.attempt ≤ max_chain
          → EndsAtLatest db d (walk fuel db d))
      → EndsAtLatest db c (walk (suc fuel) db c)
  unfolding walk TurnFacts
  after_turn fuel c (stop d) e facts f h ih = rw (e, walk) (rw facts.0 (here, facts.1))
  after_turn fuel c (go_on d) e (a, child, cur, num) f h ih =
      let up : (attempt_info c.current db).attempt < a.attempt =
        child-Above db c.current a l child in
      let own : (attempt_info a.result_id db).attempt ≡ a.attempt =
        attempt_info-child (has_parent_id c.current) db a u child in
      let low : a.attempt ≤ max_chain =
        find-All (λ (x : Attempt). x.attempt ≤ max_chain) (has_parent_id c.current) db.attempts a
          bound child in
      let (path, last) = ih d (rw cur (omega arith)) (omega arith) (omega arith) in
      rw (e, walk)
        (retry a child (subst (λ k. Descends db k (walk fuel db d).current) cur path), last)

  pub walk-latest :
      (fuel : ℕ) (c : Cursor)
      → Fits db c
      → max_chain < c.attempt + fuel
      → c.attempt ≤ max_chain
      → EndsAtLatest db c (walk fuel db c)
  walk-latest zero c f h b = absurd (omega arith)
  walk-latest (suc fuel) c f h b =
      after_turn fuel c (turn db c) refl (turn_facts db c) f h (walk-latest fuel)

-- The first attempt on record has number 1 or more.
first_Fits : (db : Db) (i : ℕ) → IsWf db → Fits db (start i)
first_Fits db i w = one_of (attempt_info i db).max_attempts (attempt_info-Within i db w)
  where
    one_of : (m : Option ℕ) {n : ℕ} → Within m n → 1 ≤ n
    one_of none h = h
    one_of (some m) h = h.0

outcome_row :
    (env : Env) (i now : ℕ) (db : Db) (o : ChainOutcome)
    → chain_outcome env i now db ≡ some o
    → row_of (walk max_chain db (start i)).current db ≡ some o.row
unfolding chain_outcome
outcome_row env i now db o e = ground arith

-- In well formed tables whose chains have at most 1000 attempts, numbered upwards, a chain is
-- followed to its end: the outcome is the row of an attempt that the first one leads to and that
-- no retry replaced, but perhaps a cancelled one which nothing re-enqueued.
pub chain_outcome-IsLatest :
    (env : Env) (i now : ℕ) (db : Db) (o : ChainOutcome)
    → IsWf db
    → IsLinked db
    → All (λ (a : Attempt). a.attempt ≤ max_chain) db.attempts
    → chain_outcome env i now db ≡ some o
    → Descends db i o.row.id × IsLatest db o.row.id
chain_outcome-IsLatest env i now db o w l b e =
    let (path, last) =
      walk-latest db w.unique_results l b max_chain (start i) (first_Fits db i w) (omega arith)
        (omega arith) in
    let k = (walk max_chain db (start i)).current in
    let same : o.row.id ≡ k =
      ==→eq o.row.id k (find-test (has_row_id k) db.rows o.row (outcome_row env i now db o e)) in
    (subst (λ j. Descends db i j) (sym same) path, subst (λ j. IsLatest db j) (sym same) last)
