-- ===== src/Tasks/Chain.antt =====
-- apps/tasks/reliability.py: where a chain of attempts stands (`chain_outcome`), and the sweep for
-- retries that were never enqueued (`repair_missed_retries`).
pub mod Walk
use smallstack_tabler.Prelude.{
  ℕ, zero, suc, ◌+◌, ◌*◌, String, Bool, true, false, not, ◌&&◌, ◌||◌, Option, none, some, List, [],
  ◌∷◌, map, leb, ltb, str_eq, is_none, take, any_row, filter_rows, seconds, if◌then◌else◌,
}
use smallstack_tabler.Tasks.Model.{
  Cause, Status, ready, failed, status_eq, Row, Attempt, Db, has_parent_id, has_result_id, row_of,
  child_of, is_bookkeeping,
}
use smallstack_tabler.Tasks.Policy.{the_policy, policy_for, attempts}
use smallstack_tabler.Tasks.Env.{Env}
use smallstack_tabler.Tasks.Decide.{decide}
use smallstack_tabler.Tasks.Retry.{Retry, retried, not_retried, raised, maybe_retry}
use smallstack_tabler.Tasks.Late.{repair_batch}

abbrev pub repair_window : ℕ
repair_window = seconds 3600

abbrev pub repair_grace : ℕ
repair_grace = seconds 30

abbrev pub max_chain : ℕ
max_chain = 1000

-- The variables of the loop of `chain_outcome`.
pub record Cursor : Type 0 where
  pub current : ℕ
  pub attempt : ℕ
  pub superseded_attempt : Option ℕ
  pub superseded_status : Option Status
  pub forked : Bool
  pub resurrected : Bool

abbrev pub start : ℕ → Cursor
start i = record {
  current = i;
  attempt = 1;
  superseded_attempt = none;
  superseded_status = none;
  forked = false;
  resurrected = false;
}

-- The step to a child: `current` and `attempt` move on, and the marker on the child is noted.
abbrev pub move_on : Attempt → Cursor → Cursor
move_on child c = record c { current = child.result_id; attempt = child.attempt }

abbrev pub note_superseded : Attempt → Cursor → Cursor
note_superseded child c = record c {
  superseded_attempt = some c.attempt;
  superseded_status = child.parent_status;
}

-- One turn of the loop, `none` for `break` before a move: `stop` keeps what was noted.
pub data Turn : Type 0 where
  stop : Cursor → Turn
  go_on : Cursor → Turn

unfoldable pub turn : Db → Cursor → Turn
turn db c = elim (child_of c.current db) [
  | none ↦ stop c
  | some child ↦
      if is_none child.parent_completed_at
      then go_on (move_on child c)
      else if not child.retry_cancelled
      then go_on (record (move_on child (note_superseded child c)) { forked = true })
      else if any_row (has_parent_id child.result_id) db.attempts
      then go_on (record (move_on child (note_superseded child c)) { resurrected = true })
      else stop (note_superseded child c)
]

-- `for _ in range(_MAX_CHAIN)`.
unfoldable pub walk : ℕ → Db → Cursor → Cursor
walk zero db c = c
walk (suc n) db c = elim (turn db c) [ stop d ↦ d | go_on d ↦ walk n db d ]

pub data ChainStatus : Type 0 where
  engine : Status → ChainStatus
  retrying : ChainStatus

pub record ChainOutcome : Type 0 where
  pub status : ChainStatus
  pub row : Row
  pub attempt : ℕ
  pub executed_more_than_once : Bool
  pub superseded_attempt : Option ℕ
  pub superseded_status : Option Status
  pub resurrected_cancelled_retry : Bool

-- `row.finished_at is None or row.finished_at >= now - REPAIR_WINDOW`.
abbrev pub is_recent : ℕ → Option ℕ → Bool
is_recent now none = true
is_recent now (some t) = leb now (t + repair_window)

unfoldable pub chain_status : Env → Db → ℕ → Row → ChainStatus
chain_status env db now row =
    if status_eq row.status failed
      && (is_recent now row.finished_at && not (is_none (decide env db row Cause.raised)))
    then retrying
    else engine row.status

abbrev pub is_ready : ChainStatus → Bool
is_ready (engine ready) = true
is_ready _ = false

unfoldable pub chain_outcome : Env → ℕ → ℕ → Db → Option ChainOutcome
chain_outcome env i now db =
    let c = walk max_chain db (start i) in
    elim (row_of c.current db) [
      | none ↦ none
      | some row ↦ some (record {
        status = chain_status env db now row;
        row = row;
        attempt = c.attempt;
        executed_more_than_once =
            c.forked || (c.resurrected && not (is_ready (chain_status env db now row)));
        superseded_attempt = c.superseded_attempt;
        superseded_status = c.superseded_status;
        resurrected_cancelled_retry = c.resurrected;
      })
    ]

-- `double_execution_note`: which of its sentences it returns.
pub data Note : Type 0 where
  empty_note : Note
  ran_again_unexpectedly : Note
  ran_more_than_once : Option ℕ → Option Status → Note

-- `if self.superseded_attempt`: attempt 0 reads as none.
abbrev pub nonzero : Option ℕ → Option ℕ
nonzero (some (suc n)) = some (suc n)
nonzero _ = none

unfoldable pub double_execution_note : ChainOutcome → Note
double_execution_note o =
    if o.resurrected_cancelled_retry
    then ran_again_unexpectedly
    else if not o.executed_more_than_once
    then empty_note
    else ran_more_than_once (nonzero o.superseded_attempt) o.superseded_status

-- `finished_at` between REPAIR_WINDOW and REPAIR_GRACE ago; a NULL is in no range.
abbrev pub in_repair_range : ℕ → Option ℕ → Bool
in_repair_range now none = false
in_repair_range now (some t) = leb now (t + repair_window) && leb (t + repair_grace) now

-- The queryset `recent` of `repair_missed_retries`.
unfoldable pub is_missed : ℕ → Db → Row → Bool
is_missed now db r =
    status_eq r.status failed
    && (in_repair_range now r.finished_at
        && (not (any_row (has_parent_id r.id) db.attempts)
            && not (is_bookkeeping r.exception_class_path)))

-- `max_attempts__gt=1`.
abbrev pub is_pinned : ℕ → Attempt → Bool
is_pinned i a = has_result_id i a && elim a.max_attempts [ none ↦ false | some m ↦ ltb 1 m ]

-- Its task allows more than one attempt, or its chain has a pinned budget.
unfoldable pub may_retry : Env → Db → Row → Bool
may_retry env db r =
    ltb 1
      (attempts env.settings (the_policy (policy_for env.importing env.policies r.call.task_path)))
    || any_row (is_pinned r.id) db.attempts

abbrev pub is_retried : Retry → Bool
is_retried (retried k) = true
is_retried _ = false

-- The loop over the candidates: an exception is logged, and the sweep goes on.
unfoldable pub repair_rows : Env → ℕ → List ℕ → ℕ → Db → ℕ × Db
repair_rows env now [] n db = (n, db)
repair_rows env now (i ∷ is) n db =
    let (r, after) = maybe_retry env i Cause.raised now db in
    repair_rows env now is (if is_retried r then suc n else n) after

-- `order` is the database's `order_by("finished_at")`.
unfoldable pub repair_missed_retries : Env → (List Row → List Row) → ℕ → Db → ℕ × Db
repair_missed_retries env order now db =
    let candidates = filter_rows (λ r. is_missed now db r && may_retry env db r) db.rows in
    repair_rows env now (map (λ (r : Row). r.id) (take repair_batch (order candidates))) 0 db
