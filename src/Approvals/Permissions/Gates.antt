-- ===== src/Approvals/Permissions/Gates.antt =====
-- apps/approvals/permissions.py: the gates of a decision, and the list of what may be viewed.
use smallstack_tabler.Prelude.{
  ◌↔◌, refl, ℕ, ◌≡◌, ◌⊎◌, inl, inr, true, false, ap, none, ◌&&◌, not, arith, some, List,
  filter_rows, same_option, Bool-cases, Option-cases, sym, filter_rows-eq, filter_rows-true,
  filter_rows-false,
}
use smallstack_tabler.Approvals.Model.{ApprovalRequest, pending}
use smallstack_tabler.Approvals.Permissions.{
  Actor, Policy, acting_pk, is_staff, is_assignee, has_assignees, can_view, viewable_requests,
  is_eligible, kind_allows, can_decide, HookAnswer, answers, raises, KindDef,
}

-- The kind has no say, or its hook says yes.
pub data Consents (p : Policy) (u : Actor) (r : ApprovalRequest) : Type 0 where
  unregistered : p.get_kind r.kind ≡ none → Consents p u r
  no_hook : (k : KindDef) → p.get_kind r.kind ≡ some k → k.can_decide_hook ≡ none → Consents p u r
  says_yes :
      (k : KindDef) (hook : Actor → ApprovalRequest → HookAnswer)
      → p.get_kind r.kind ≡ some k
      → k.can_decide_hook ≡ some hook
      → hook u r ≡ answers true
      → Consents p u r

-- What holds of everyone who may decide a request.
pub record MayDecide (p : Policy) (u : Actor) (r : ApprovalRequest) (i : ℕ) : Type 0 where
  pub identity : u.pk ≡ some i
  pub active : u.is_active ≡ true
  pub open_request : r.status ≡ pending
  pub not_own : (same_option r.requested_by i && not p.allow_self_approve) ≡ false
  pub eligible :
      (is_assignee i r.assignees ≡ true)
      ⊎ ((u.staff ≡ true) × ((has_assignees r.assignees && not p.staff_override) ≡ false))
  pub allowed : Consents p u r

says_yes-answers :
    (a : HookAnswer) → elim a [ answers b ↦ b | raises ↦ false ] ≡ true → a ≡ answers true
says_yes-answers (answers b) h = ap answers h
says_yes-answers raises h = cc

kind_allows-Consents :
    (p : Policy) (u : Actor) (r : ApprovalRequest) → kind_allows p u r ≡ true → Consents p u r
unfolding kind_allows
kind_allows-Consents p u r h = elim (Option-cases (p.get_kind r.kind)) [
  | inl e ↦ unregistered e
  | inr (k, e) ↦ elim (Option-cases k.can_decide_hook) [
    | inl f ↦ no_hook k e f
    | inr (hook, f) ↦
        says_yes k hook e f (says_yes-answers (hook u r) (rw (e, f, kind_allows) at h))
  ]
]

may_decide :
    (p : Policy) (u : Actor) (r : ApprovalRequest) (i : ℕ)
    → acting_pk u ≡ some i
    → can_decide p u r ≡ true
    → MayDecide p u r i
unfolding can_decide is_eligible
may_decide p u r i e h = record {
  identity = ground arith;
  active = ground arith;
  open_request = ground arith;
  not_own = ground arith;
  eligible = ground arith;
  allowed = kind_allows-Consents p u r (ground arith);
}

Consents-kind_allows :
    (p : Policy) (u : Actor) (r : ApprovalRequest) → Consents p u r → kind_allows p u r ≡ true
unfolding kind_allows
Consents-kind_allows p u r (unregistered e) = rw (e, kind_allows) refl
Consents-kind_allows p u r (no_hook k e f) = rw (e, f, kind_allows) refl
Consents-kind_allows p u r (says_yes k hook e f y) = rw (e, f, y, kind_allows) refl

gates_pass :
    (p : Policy) (u : Actor) (r : ApprovalRequest) (i : ℕ)
    → MayDecide p u r i
    → can_decide p u r ≡ true
unfolding can_decide is_eligible acting_pk is_staff
gates_pass p u r i m =
    let consent = Consents-kind_allows p u r m.allowed in
    let pk = m.identity in
    let active = m.active in
    let waits = m.open_request in let own = m.not_own in let named = m.eligible in ground arith

-- Who may decide is exactly who passes every gate of the policy: an active, saved account; a pending
-- request; not one's own, unless the setting allows it; being an assignee, or staff where no assignee
-- is named or the override is on; and that the kind has no hook or its hook answers yes. A hook that
-- raises has not answered.
pub can_decide-MayDecide :
    (p : Policy) (u : Actor) (r : ApprovalRequest)
    → (can_decide p u r ≡ true) ↔ ((i : ℕ) × MayDecide p u r i)
unfolding can_decide
can_decide-MayDecide p u r = (
  λ h. elim (Option-cases (acting_pk u)) [
    | inl e ↦ let no : false ≡ true = rw (e, can_decide) at h in cc
    | inr (i, e) ↦ (i, may_decide p u r i e h)
  ],
  λ (i, m). gates_pass p u r i m,
)

-- A request is in the list of those that an actor may see exactly when the actor may see it.
pub viewable_requests-can_view :
    (u : Actor) (rs : List ApprovalRequest) → viewable_requests u rs ≡ filter_rows (can_view u) rs
unfolding viewable_requests can_view
viewable_requests-can_view u rs = elim (Option-cases (acting_pk u)) [
  | inl e ↦
      rw (e, viewable_requests) (sym (filter_rows-false (can_view u) rs (λ r. rw (e, can_view))))
  | inr (i, e) ↦ elim (Bool-cases (is_staff u)) [
    | inl t ↦
        rw (e, t, viewable_requests)
          (sym (filter_rows-true (can_view u) rs (λ r. rw (e, t, can_view))))
    | inr f ↦
        rw (e, f, viewable_requests)
          (filter_rows-eq _ (can_view u) rs (λ r. sym (rw (e, f, can_view))))
  ]
]
