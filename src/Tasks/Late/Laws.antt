-- ===== src/Tasks/Late/Laws.antt =====
-- apps/tasks/reliability.py: which attempts are marked as late completions, and how often.
use smallstack_tabler.Prelude.{
  ℕ, ◌≡◌, ◌≢◌, refl, true, false, String, none, some, List, [], ◌∷◌, arith, any_row, find,
  find-eq-none, any_row-eq-false, find-update_some, update_where, Option-cases, inl, inr,
  any_row-update_where, All,
}
use smallstack_tabler.Tasks.Model.{
  Status, ready, Row, Attempt, Db, has_row_id, has_parent_id, row_of, is_lost,
}
use smallstack_tabler.Tasks.Late.{
  is_reaped_child, is_ready_row, cancelled_row, mark, cancel_ready, flag_cancelled, supersede,
  mark_superseded,
}

-- After the marker is set nothing matches the filter again.
any_row-marked :
    (parent : ℕ) (status : Status) (at : ℕ) (xs : List Attempt)
    → any_row (is_reaped_child parent) (
        update_where
          (is_reaped_child parent)
          (λ a. record a { parent_completed_at = some at; parent_status = some status })
          xs)
      ≡ false
unfolding any_row update_where is_reaped_child
any_row-marked parent status at [] = refl
any_row-marked parent status at (x ∷ xs) = ground (arith, any_row-marked parent status at xs)

-- The flag leaves the filter as it is.
any_row-flagged :
    (parent : ℕ) (xs : List Attempt)
    → any_row
        (is_reaped_child parent)
        (update_where (has_parent_id parent) (λ a. record a { retry_cancelled = true }) xs)
      ≡ any_row (is_reaped_child parent) xs
unfolding is_reaped_child
any_row-flagged parent xs =
    any_row-update_where (is_reaped_child parent) (has_parent_id parent) _ xs (λ x. ground arith)

pub supersede_done :
    (parent : ℕ) (status : Status) (path : String) (at now child : ℕ) (db : Db)
    → any_row (is_reaped_child parent) (supersede parent status path at now child db).1.attempts
      ≡ false
unfolding supersede mark cancel_ready flag_cancelled
supersede_done parent status path at now child db = ground (
  arith,
  any_row-marked parent status at db.attempts,
  any_row-flagged parent (
      update_where (is_reaped_child parent)
        (λ a. record a { parent_completed_at = some at; parent_status = some status }) db.attempts),
)

mark_superseded-unmarked :
    (parent : ℕ) (status : Status) (path : String) (at now : ℕ) (db : Db)
    → any_row (is_reaped_child parent) db.attempts ≡ false
    → mark_superseded parent status path at now db ≡ (none, db)
unfolding mark_superseded
mark_superseded-unmarked parent status path at now db h =
    rw (find-eq-none (is_reaped_child parent) db.attempts h, mark_superseded)

mark_superseded-done :
    (parent : ℕ) (status : Status) (path : String) (at now : ℕ) (db : Db)
    → any_row (is_reaped_child parent) (mark_superseded parent status path at now db).1.attempts
      ≡ false
unfolding mark_superseded
mark_superseded-done parent status path at now db =
    elim (Option-cases (find (is_reaped_child parent) db.attempts)) [
      | inl e ↦ rw (e, mark_superseded) (no_row e)
      | inr (a, e) ↦
          rw (e, mark_superseded) (supersede_done parent status path at now a.result_id db)
    ]
  where
    no_row :
        find (is_reaped_child parent) db.attempts ≡ none
        → any_row (is_reaped_child parent) db.attempts ≡ false
    no_row e = any_row-eq-false (is_reaped_child parent) db.attempts e

-- A late completion is counted once: a second report of the same attempt finds nothing and changes
-- nothing, whichever path makes it and whatever it says.
pub mark_superseded_once :
    (parent : ℕ) (s s' : Status) (path path' : String) (at at' now now' : ℕ) (db : Db)
    → let after = (mark_superseded parent s path at now db).1 in
      mark_superseded parent s' path' at' now' after ≡ (none, after)
mark_superseded_once parent s s' path path' at at' now now' db =
    mark_superseded-unmarked parent s' path' at' now' (mark_superseded parent s path at now db).1
      (mark_superseded-done parent s path at now db)

-- No child of the attempt came from a reap.
abbrev pub NoLostChild : ℕ → Attempt → Type 0
NoLostChild parent a = has_parent_id parent a ≡ true → is_lost a.cause ≡ false

reaped_child-none :
    (parent : ℕ) (xs : List Attempt)
    → All (NoLostChild parent) xs
    → any_row (is_reaped_child parent) xs ≡ false
unfolding any_row is_reaped_child
reaped_child-none parent [] h = refl
reaped_child-none parent (x ∷ xs) h = ground (arith, h.0, reaped_child-none parent xs h.1)

-- An attempt that was retried for another cause than a reap is never a late completion, so its
-- retry is neither marked nor cancelled.
pub mark_superseded_only_lost :
    (parent : ℕ) (status : Status) (path : String) (at now : ℕ) (db : Db)
    → All (NoLostChild parent) db.attempts
    → mark_superseded parent status path at now db ≡ (none, db)
mark_superseded_only_lost parent status path at now db h =
    mark_superseded-unmarked parent status path at now db (reaped_child-none parent db.attempts h)

-- The only row that the cancel can write is a READY one.
cancel_ready-started :
    (parent child now j : ℕ) (s : Status) (xs : List Row) (r : Row)
    → find (has_row_id j) xs ≡ some r
    → r.status ≢ ready
    → find (has_row_id j) (update_where (is_ready_row child) (cancelled_row parent s now) xs)
      ≡ some r
cancel_ready-started parent child now j s xs r e n =
    find-update_some (has_row_id j) (is_ready_row child) (cancelled_row parent s now) xs r e
      (λ x. ground arith) (ground arith)

supersede-started :
    (parent : ℕ) (status : Status) (path : String) (at now child j : ℕ) (db : Db) (r : Row)
    → row_of j db ≡ some r
    → r.status ≢ ready
    → row_of j (supersede parent status path at now child db).1 ≡ some r
unfolding supersede mark cancel_ready flag_cancelled
supersede-started parent status path at now child j db r e n =
    ground (arith, cancel_ready-started parent child now j status db.rows r e n)

-- A row that is not READY, a started retry above all, is left exactly as it was.
pub mark_superseded_started :
    (parent : ℕ) (status : Status) (path : String) (at now j : ℕ) (db : Db) (r : Row)
    → row_of j db ≡ some r
    → r.status ≢ ready
    → row_of j (mark_superseded parent status path at now db).1 ≡ some r
unfolding mark_superseded
mark_superseded_started parent status path at now j db r e n =
    elim (Option-cases (find (is_reaped_child parent) db.attempts)) [
      | inl f ↦ rw (f, mark_superseded) e
      | inr (a, f) ↦
          rw (f, mark_superseded)
            (supersede-started parent status path at now a.result_id j db r e n)
    ]
