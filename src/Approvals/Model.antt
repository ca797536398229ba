-- ===== src/Approvals/Model.antt =====
-- apps/approvals/models.py: the request, its statuses, and the one definition of "pending now".
pub mod Effective
use smallstack_tabler.Prelude.{
  ℕ, String, Bool, true, false, not, ◌&&◌, ◌||◌, Option, none, some, List, leb, ◌==◌, is_none,
  any_row, if◌then◌else◌,
}

-- `ApprovalRequest.Status`.
pub data Status : Type 0 where
  pending approved rejected canceled expired : Status

abbrev pub status_eq : Status → Status → Bool
status_eq pending pending = true
status_eq approved approved = true
status_eq rejected rejected = true
status_eq canceled canceled = true
status_eq expired expired = true
status_eq _ _ = false

-- The target columns: content type, object id and the cut text.
pub record Target : Type 0 where
  pub content_type : String
  pub object_id : String
  pub repr : List ℕ

pub record ApprovalRequest : Type 0 where
  pub id : ℕ
  pub kind : String
  pub title : List ℕ
  pub description : String
  pub context : List (String × String)
  pub target : Option Target
  pub requested_by : Option ℕ
  pub assignees : List ℕ
  pub status : Status
  pub decided_by : Option ℕ
  pub decided_at : Option ℕ
  pub decision_note : String
  pub expires_at : Option ℕ
  pub callback_error : Bool
  pub created_at : ℕ

abbrev pub has_id : ℕ → ApprovalRequest → Bool
has_id i r = r.id == i

-- `is_pending`.
abbrev pub is_pending : ApprovalRequest → Bool
is_pending r = status_eq r.status pending

-- `expires_at__isnull=False, expires_at__lte=now`.
abbrev pub is_past : Option ℕ → ℕ → Bool
is_past none now = false
is_past (some t) now = leb t now

-- `is_overdue`, and the queryset `overdue`.
unfoldable pub is_overdue : ℕ → ApprovalRequest → Bool
is_overdue now r = is_pending r && is_past r.expires_at now

-- The queryset `actionable`.
unfoldable pub is_actionable : ℕ → ApprovalRequest → Bool
is_actionable now r = is_pending r && not (is_past r.expires_at now)

-- The queryset `for_effective_status(value)`. The subquery by pk is the row's own overdue test.
unfoldable pub in_effective_status : Status → ℕ → ApprovalRequest → Bool
in_effective_status pending now r = is_actionable now r
in_effective_status expired now r = status_eq r.status expired || is_overdue now r
in_effective_status v now r = status_eq r.status v

-- `effective_status`.
unfoldable pub effective_status : ℕ → ApprovalRequest → Status
effective_status now r = if is_overdue now r then expired else r.status
