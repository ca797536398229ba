-- ===== src/Approvals/Permissions.antt =====
-- apps/approvals/permissions.py: who may see, decide and cancel a request.
pub mod Gates
use smallstack_tabler.Prelude.{
  ℕ, String, Bool, true, false, not, ◌&&◌, ◌||◌, Option, none, some, List, [], ◌∷◌, ◌==◌,
  same_option, is_none, filter_rows, any_row, if◌then◌else◌,
}
use smallstack_tabler.Approvals.Model.{ApprovalRequest, is_pending}

-- An actor: a user, or nobody, who has no `pk` and is not active.
pub record Actor : Type 0 where
  pub pk : Option ℕ
  pub is_active : Bool
  pub staff : Bool

-- What a kind's hook does: it answers, or it raises.
pub data HookAnswer : Type 0 where
  answers : Bool → HookAnswer
  raises : HookAnswer

pub data Callback : Type 0 where
  returns raises_error : Callback

-- A registered kind. `on_decision` tells whether the callback raises.
pub record KindDef : Type 0 where
  pub default_expires_in : Option ℕ
  pub can_decide_hook : Option (Actor → ApprovalRequest → HookAnswer)
  pub on_decision : Option (ApprovalRequest → Callback)

-- The settings, and the registry's `get_kind`. Durations are in microseconds.
pub record Policy : Type 0 where
  pub enabled : Bool
  pub allow_self_approve : Bool
  pub staff_override : Bool
  pub max_pending_per_requester : ℕ
  pub default_expires_minutes : ℕ
  pub get_kind : String → Option KindDef

-- `_pk`.
unfoldable pub acting_pk : Actor → Option ℕ
acting_pk u = if u.is_active then u.pk else none

unfoldable pub is_staff : Actor → Bool
is_staff u = u.staff && u.is_active

unfoldable pub is_assignee : ℕ → List ℕ → Bool
is_assignee i [] = false
is_assignee i (a ∷ rest) = a == i || is_assignee i rest

abbrev pub has_assignees : List ℕ → Bool
has_assignees [] = false
has_assignees (a ∷ rest) = true

unfoldable pub can_view : Actor → ApprovalRequest → Bool
unfolding acting_pk is_staff is_assignee
can_view u r = elim (acting_pk u) [
  | none ↦ false
  | some i ↦ is_staff u || (same_option r.requested_by i || is_assignee i r.assignees)
]

-- `viewable_requests`.
unfoldable pub viewable_requests : Actor → List ApprovalRequest → List ApprovalRequest
unfolding acting_pk is_staff is_assignee
viewable_requests u rs = elim (acting_pk u) [
  | none ↦ []
  | some i ↦
      if is_staff u
      then rs
      else filter_rows (λ r. same_option r.requested_by i || is_assignee i r.assignees) rs
]

-- The assignees narrow who is eligible; without any, staff are.
unfoldable pub is_eligible : Policy → Actor → ℕ → ApprovalRequest → Bool
unfolding is_staff is_assignee
is_eligible p u i r =
    if has_assignees r.assignees
    then is_assignee i r.assignees || (is_staff u && p.staff_override)
    else is_staff u

abbrev pub hook_allows :
    Option (Actor → ApprovalRequest → HookAnswer) → Actor → ApprovalRequest → Bool
hook_allows none u r = true
hook_allows (some f) u r = elim (f u r) [ answers b ↦ b | raises ↦ false ]

unfoldable pub kind_allows : Policy → Actor → ApprovalRequest → Bool
kind_allows p u r = elim (p.get_kind r.kind) [
  | none ↦ true
  | some k ↦ hook_allows k.can_decide_hook u r
]

unfoldable pub can_decide : Policy → Actor → ApprovalRequest → Bool
unfolding acting_pk
can_decide p u r = elim (acting_pk u) [
  | none ↦ false
  | some i ↦
      if not (is_pending r)
      then false
      else if same_option r.requested_by i && not p.allow_self_approve
      then false
      else if not (is_eligible p u i r)
      then false
      else kind_allows p u r
]

unfoldable pub can_cancel : Actor → ApprovalRequest → Bool
unfolding acting_pk is_staff
can_cancel u r = elim (acting_pk u) [
  | none ↦ false
  | some i ↦ is_pending r && (same_option r.requested_by i || is_staff u)
]
