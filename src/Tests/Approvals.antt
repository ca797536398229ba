-- ===== src/Tests/Approvals.antt =====
-- A request that a member of the staff decides, and the theorems on approvals at it.
use smallstack_tabler.Prelude.{
  ◌↔◌, count_where, arith, ◌≤◌, ℕ, ◌≡◌, refl, true, false, none, some, [], ◌∷◌, find, any_row,
  update_where, filter_rows,
}
use smallstack_tabler.Approvals.Model.{
  Status, pending, approved, ApprovalRequest, is_overdue, is_actionable, status_eq,
  in_effective_status, effective_status,
}
use smallstack_tabler.Approvals.Model.Effective.{in_effective_status-eq-effective_status}
use smallstack_tabler.Approvals.Permissions.{
  Actor, Policy, acting_pk, is_staff, is_eligible, kind_allows, can_decide, can_view,
  viewable_requests,
}
use smallstack_tabler.Approvals.Permissions.Gates.{
  MayDecide, can_decide-MayDecide, viewable_requests-can_view,
}
use smallstack_tabler.Approvals.Services.{
  web, State, done, Filing, new_request, request_approval, is_over_cap, expiry_of, decide,
  claim_and_finish, write_claim, finish_row, finish, run_callback, transition, mark_expired,
}
use smallstack_tabler.Approvals.Services.Terminal.{Decision, decision_of, Holds}
use smallstack_tabler.Approvals.Services.History.{Step, judge, Reach, here, next, Reach-Holds}
use smallstack_tabler.Approvals.Services.Cap.{outstanding, request_approval-outstanding}
use smallstack_tabler.Approvals.Services.Once.{IsRefused, decide_once}

abbrev policy : Policy
policy = record {
  enabled = true;
  allow_self_approve = false;
  staff_override = true;
  max_pending_per_requester = 20;
  default_expires_minutes = 0;
  get_kind = λ key. none;
}

abbrev boss : Actor
boss = record { pk = some 9; is_active = true; staff = true }

abbrev request : ApprovalRequest
request = record {
  id = 1;
  kind = "publish";
  title = 80 ∷ [];
  description = "";
  context = [];
  target = none;
  requested_by = some 5;
  assignees = [];
  status = pending;
  decided_by = none;
  decided_at = none;
  decision_note = "";
  expires_at = some 900;
  callback_error = false;
  created_at = 100;
}

abbrev open_state : State
open_state = record { requests = request ∷ []; effects = [] }

allowed : can_decide policy boss request ≡ true
unfolding can_decide acting_pk is_eligible is_staff kind_allows
allowed = refl

can_decide-MayDecide_example :
    (can_decide policy boss request ≡ true) ↔ ((i : ℕ) × MayDecide policy boss request i)
can_decide-MayDecide_example = can_decide-MayDecide policy boss request

abbrev decided : ApprovalRequest
decided = transition approved (some 9) 200 "fine" request

decides : (decide policy request boss true "fine" web 200 open_state).0 ≡ done decided
unfolding decide is_overdue can_decide acting_pk is_eligible is_staff kind_allows claim_and_finish
    write_claim finish_row finish run_callback any_row find update_where
decides = refl

decide_once_example : IsRefused (decide policy request boss true "fine" web 200 open_state).1 (
    decide policy request boss false "no" web 201
      (decide policy request boss true "fine" web 200 open_state).1)
decide_once_example =
    decide_once policy policy request request boss boss true false "fine" "no" web web 200 201
      open_state decided decides refl

abbrev verdict_kept : Decision
verdict_kept = decision_of decided

abbrev closed_state : State
closed_state = record { requests = decided ∷ []; effects = [] }

-- A late decision on a stale request, and then a sweep.
later :
    Reach policy closed_state
      (mark_expired policy
        (λ rs. rs)
        none
        950
        (decide policy request boss false "no" web 300 closed_state).1).1
later =
    next (next here (judge request boss false "no" web 300 closed_state)) (
      Step.sweep (λ rs. rs) none 950 (decide policy request boss false "no" web 300 closed_state).1)

Reach-Holds_example :
    Holds 1 verdict_kept
      (mark_expired policy
        (λ rs. rs)
        none
        950
        (decide policy request boss false "no" web 300 closed_state).1).1
unfolding find
Reach-Holds_example = Reach-Holds 1 verdict_kept (λ e. cc) later (decided, refl, refl)

in_effective_status-eq-effective_status_example :
    in_effective_status Status.expired 950 request
    ≡ status_eq (effective_status 950 request) Status.expired
in_effective_status-eq-effective_status_example =
    in_effective_status-eq-effective_status Status.expired 950 request

viewable_requests-can_view_example :
    viewable_requests boss (request ∷ decided ∷ [])
    ≡ filter_rows (can_view boss) (request ∷ decided ∷ [])
viewable_requests-can_view_example = viewable_requests-can_view boss (request ∷ decided ∷ [])

abbrev requester : Actor
requester = record { pk = some 5; is_active = true; staff = false }

abbrev filing : Filing
filing = record {
  kind = "publish";
  title = 80 ∷ [];
  description = "";
  context = [];
  target = none;
  assignees = [];
  expires_at = none;
  expires_in = none;
  require_known_kind = false;
}

files :
    (request_approval policy filing requester web 2 300 open_state).0
    ≡ done (new_request policy filing requester 2 300)
unfolding request_approval is_over_cap count_where is_actionable expiry_of
files = refl

request_approval-outstanding_example :
    outstanding 5 "publish" 300 (request_approval policy filing requester web 2 300 open_state).1
    ≤ 20
request_approval-outstanding_example =
    request_approval-outstanding policy filing requester web 5 2 300 open_state
      (new_request policy filing requester 2 300) (omega arith) refl files
