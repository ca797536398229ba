-- ===== src/Approvals/Model/Effective.antt =====
-- apps/approvals/models.py: the effective status of a row and of a query.
use smallstack_tabler.Prelude.{ℕ, ◌≡◌, arith}
use smallstack_tabler.Approvals.Model.{
  Status, pending, status_eq, ApprovalRequest, is_overdue, is_actionable, in_effective_status,
  effective_status,
}

-- A query for a status returns a row exactly when the row shows that status, so the queue, the
-- counts and the badges agree at every moment.
pub in_effective_status-eq-effective_status :
    (v : Status) (now : ℕ) (r : ApprovalRequest)
    → in_effective_status v now r ≡ status_eq (effective_status now r) v
unfolding in_effective_status effective_status is_overdue is_actionable
in_effective_status-eq-effective_status pending now r = ground arith
in_effective_status-eq-effective_status _ now r = ground arith
