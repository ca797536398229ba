-- ===== src/Approvals/Services.antt =====
-- apps/approvals/services.py: filing, deciding, cancelling and expiring requests. A function takes
-- the request as its caller read it, which may be stale, and the clock's reading `now`.
pub mod Terminal
pub mod History
pub mod Once
pub mod Cap
use smallstack_tabler.Prelude.{
  ℕ, zero, suc, ◌+◌, ◌*◌, String, Bool, true, false, not, ◌&&◌, ◌||◌, Option, none, some, List, [],
  ◌∷◌, ◌++◌, map, leb, ltb, ◌==◌, str_eq, same_option, is_none, take, length, any_row, find,
  filter_rows, count_where, update_where, seconds, if◌then◌else◌,
}
use smallstack_tabler.Approvals.Model.{
  Status, pending, approved, rejected, canceled, expired, status_eq, Target, ApprovalRequest,
  has_id, is_pending, is_overdue, is_actionable,
}
use smallstack_tabler.Approvals.Permissions.{
  Actor, Policy, KindDef, Callback, returns, raises_error, can_decide, can_cancel,
}

pub data Source : Type 0 where
  web rest mcp cli expiry : Source

-- What leaves the tables: audit rows (by an actor's pk, or by the system), and the signals that are
-- sent when the transaction commits.
pub data Effect : Type 0 where
  log_write : Option ℕ → ℕ → Source → Effect
  log_system_write : ℕ → Source → Effect
  approval_requested : ℕ → Effect
  approval_decided : ℕ → Source → Effect

pub record State : Type 0 where
  pub requests : List ApprovalRequest
  pub effects : List Effect

-- How a call ends: with the request, or with an exception.
pub data Result : Type 0 where
  done : ApprovalRequest → Result
  not_pending not_eligible too_many_pending unknown_kind approvals_disabled : Result

abbrev pub emit : List Effect → State → State
emit es s = record s { effects = s.effects ++ es }

-- `filter(requested_by_id=actor_pk, kind=kind)` on the actionable requests.
abbrev pub is_outstanding : ℕ → String → ℕ → ApprovalRequest → Bool
is_outstanding i kind now r =
    is_actionable now r && (same_option r.requested_by i && str_eq r.kind kind)

-- `_check_pending_cap`: whether it raises.
unfoldable pub is_over_cap : Policy → String → Option ℕ → ℕ → State → Bool
is_over_cap p kind none now s = false
is_over_cap p kind (some i) now s =
    not (p.max_pending_per_requester == 0)
    && leb p.max_pending_per_requester (count_where (is_outstanding i kind now) s.requests)

-- The expiry of a new request: explicit, or an interval from the caller, the kind or the settings.
abbrev pub default_interval : ℕ → Option ℕ
default_interval zero = none
default_interval (suc n) = some (seconds (suc n * 60))

abbrev pub first_some : Option ℕ → Option ℕ → Option ℕ
first_some none b = b
first_some (some a) b = some a

abbrev pub kind_interval : Option KindDef → Option ℕ
kind_interval none = none
kind_interval (some k) = k.default_expires_in

abbrev pub from_now : ℕ → Option ℕ → Option ℕ
from_now now none = none
from_now now (some d) = some (now + d)

unfoldable pub expiry_of : Policy → String → Option ℕ → Option ℕ → ℕ → Option ℕ
expiry_of p kind expires_at expires_in now = first_some expires_at (
    from_now now (
      first_some expires_in (
        first_some (kind_interval (p.get_kind kind)) (default_interval p.default_expires_minutes))))

-- The fields that the caller of `request_approval` gives.
pub record Filing : Type 0 where
  pub kind : String
  pub title : List ℕ
  pub description : String
  pub context : List (String × String)
  pub target : Option Target
  pub assignees : List ℕ
  pub expires_at : Option ℕ
  pub expires_in : Option ℕ
  pub require_known_kind : Bool

abbrev pub new_request : Policy → Filing → Actor → ℕ → ℕ → ApprovalRequest
new_request p f actor id now = record {
  id = id;
  kind = f.kind;
  title = take 200 f.title;
  description = f.description;
  context = f.context;
  target = f.target;
  requested_by = actor.pk;
  assignees = f.assignees;
  status = pending;
  decided_by = none;
  decided_at = none;
  decision_note = "";
  expires_at = expiry_of p f.kind f.expires_at f.expires_in now;
  callback_error = false;
  created_at = now;
}

-- `request_approval`; `id` is the key that the database gives the new row.
unfoldable pub request_approval : Policy → Filing → Actor → Source → ℕ → ℕ → State → Result × State
request_approval p f actor source id now s =
    if not p.enabled
    then (approvals_disabled, s)
    else if is_over_cap p f.kind actor.pk now s
    then (too_many_pending, s)
    else if f.require_known_kind && is_none (p.get_kind f.kind)
    then (unknown_kind, s)
    else (let req = new_request p f actor id now in
        (
          done req,
          emit (log_write actor.pk id source ∷ approval_requested id ∷ [])
              (record s { requests = s.requests ++ req ∷ [] }),
        ))

-- The rows that `_claim` may write: the request, while it is pending.
abbrev pub is_claimable : ℕ → ApprovalRequest → Bool
is_claimable i r = has_id i r && is_pending r

-- What a transition writes.
abbrev pub transition : Status → Option ℕ → ℕ → String → ApprovalRequest → ApprovalRequest
transition status by at note r = record r {
  status = status;
  decided_by = by;
  decided_at = some at;
  decision_note = note;
}

-- An expiry leaves `decided_by` and the note as they are.
abbrev pub expiry_transition : ℕ → ApprovalRequest → ApprovalRequest
expiry_transition at r = record r { status = expired; decided_at = some at }

unfoldable pub write_claim : ℕ → (ApprovalRequest → ApprovalRequest) → State → State
write_claim i f s = record s { requests = update_where (is_claimable i) f s.requests }

abbrev pub callback_raises : Policy → ApprovalRequest → Bool
callback_raises p r = elim (p.get_kind r.kind) [
  | none ↦ false
  | some k ↦ elim k.on_decision [
    | none ↦ false
    | some f ↦ elim (f r) [ returns ↦ false | raises_error ↦ true ]
  ]
]

-- `_run_callback`: an error of the kind's callback is stored, and the decision stands.
unfoldable pub run_callback : Policy → ApprovalRequest → State → State
run_callback p r s =
    if callback_raises p r
    then record s {
      requests = update_where (has_id r.id) (λ x. record x { callback_error = true }) s.requests;
    }
    else s

-- Who the audit row names: a transition without an actor is the system's.
abbrev pub audit : Option ℕ → ℕ → Source → Effect
audit none i source = log_system_write i source
audit (some a) i source = log_write (some a) i source

-- `_finish` on the row as refreshed after the claim. Its `save` writes back the columns just read.
unfoldable pub finish : Policy → ApprovalRequest → Option ℕ → Source → State → State
finish p r actor source s =
    emit (audit actor r.id source ∷ approval_decided r.id source ∷ []) (run_callback p r s)

abbrev pub result_of : Option ApprovalRequest → Result
result_of none = not_pending
result_of (some r) = done r

-- The callback, the audit row and the signal of the row `i`, after it was claimed.
unfoldable pub finish_row : Policy → ℕ → Option ℕ → Source → State → Result × State
finish_row p i actor source s = elim (find (has_id i) s.requests) [
  | none ↦ (not_pending, s)
  | some r ↦
      let after = finish p r actor source s in (result_of (find (has_id i) after.requests), after)
]

-- `_claim` followed by `_finish`: the loser of the conditional UPDATE writes nothing.
unfoldable pub claim_and_finish :
    Policy → ℕ → (ApprovalRequest → ApprovalRequest) → Option ℕ → Source → State → Result × State
claim_and_finish p i f actor source s =
    if not (any_row (is_claimable i) s.requests)
    then (not_pending, s)
    else finish_row p i actor source (write_claim i f s)

abbrev pub verdict : Bool → Status
verdict true = approved
verdict false = rejected

-- `decide`.
unfoldable pub decide :
    Policy → ApprovalRequest → Actor → Bool → String → Source → ℕ → State → Result × State
decide p req actor approved? note source now s =
    if not p.enabled
    then (approvals_disabled, s)
    else if is_overdue now req
    then (not_pending, (claim_and_finish p req.id (expiry_transition now) none expiry s).1)
    else if not (is_pending req)
    then (not_pending, s)
    else if not (can_decide p actor req)
    then (not_eligible, s)
    else claim_and_finish p req.id (transition (verdict approved?) actor.pk now note) actor.pk
        source s

unfoldable pub cancel :
    Policy → ApprovalRequest → Actor → String → Source → ℕ → State → Result × State
cancel p req actor note source now s =
    if not p.enabled
    then (approvals_disabled, s)
    else if not (can_cancel actor req)
    then (not_eligible, s)
    else claim_and_finish p req.id (transition canceled actor.pk now note) actor.pk source s

-- The loop of `mark_expired` over the ids that it read.
unfoldable pub expire_rows : Policy → ℕ → List ℕ → ℕ → State → ℕ × State
expire_rows p now [] n s = (n, s)
expire_rows p now (i ∷ is) n s =
    let won = any_row (is_claimable i) s.requests in
    let after = (claim_and_finish p i (expiry_transition now) none expiry s).1 in
    expire_rows p now is (if won then suc n else n) after

-- `overdue_ids[:limit]`.
abbrev pub limited : Option ℕ → List ℕ → List ℕ
limited none is = is
limited (some n) is = take n is

-- `mark_expired`; `order` is the database's `order_by("expires_at")`. The second part of the result
-- says whether the backlog was cut.
unfoldable pub mark_expired :
    Policy
    → (List ApprovalRequest → List ApprovalRequest)
    → Option ℕ
    → ℕ
    → State
    → (ℕ × Bool) × State
mark_expired p order limit now s =
    let overdue =
      map (λ (r : ApprovalRequest). r.id) (order (filter_rows (is_overdue now) s.requests)) in
    let (n, after) = expire_rows p now (limited limit overdue) 0 s in
    ((n, elim limit [ none ↦ false | some k ↦ ltb k (length overdue) ]), after)
