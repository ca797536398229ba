-- ===== src/Approvals/Services/History.antt =====
-- apps/approvals/services.py: sequences of its calls, and a decided request through them.
use smallstack_tabler.Prelude.{
  ℕ, String, ◌≢◌, refl, Bool, not, ◌&&◌, Option, none, List, [], ◌∷◌, find-append-some, Bool-cases,
  inl, inr, is_none,
}
use smallstack_tabler.Approvals.Model.{
  pending, canceled, ApprovalRequest, has_id, is_pending, is_overdue,
}
use smallstack_tabler.Approvals.Permissions.{Actor, Policy, can_decide, can_cancel}
use smallstack_tabler.Approvals.Services.{
  Source, expiry, State, Filing, request_approval, transition, expiry_transition, verdict, decide,
  cancel, expire_rows, mark_expired, is_over_cap,
}
use smallstack_tabler.Approvals.Services.Terminal.{Decision, Holds, claim_and_finish-Holds}

module _ (p : Policy) (j : ℕ) (v : Decision) (final : v.status ≢ pending) where
  decide-Holds :
      (req : ApprovalRequest) (a : Actor) (b : Bool) (note : String) (src : Source) (now : ℕ)
      (s : State)
      → Holds j v s
      → Holds j v (decide p req a b note src now s).1
  unfolding decide
  decide-Holds req a b note src now s h = elim (Bool-cases (not p.enabled)) [
    | inl t ↦ rw (t, decide) h
    | inr t ↦ elim (Bool-cases (is_overdue now req)) [
      | inl u ↦
          rw (t, u, decide)
            (claim_and_finish-Holds p req.id (expiry_transition now) none expiry j v s (λ r. refl)
              final h)
      | inr u ↦ elim (Bool-cases (not (is_pending req))) [
        | inl w ↦ rw (t, u, w, decide) h
        | inr w ↦ elim (Bool-cases (not (can_decide p a req))) [
          | inl x ↦ rw (t, u, w, x, decide) h
          | inr x ↦
              rw (t, u, w, x, decide)
                (claim_and_finish-Holds p req.id (transition (verdict b) a.pk now note) a.pk src j v
                  s (λ r. refl) final h)
        ]
      ]
    ]
  ]

  cancel-Holds :
      (req : ApprovalRequest) (a : Actor) (note : String) (src : Source) (now : ℕ) (s : State)
      → Holds j v s
      → Holds j v (cancel p req a note src now s).1
  unfolding cancel
  cancel-Holds req a note src now s h = elim (Bool-cases (not p.enabled)) [
    | inl t ↦ rw (t, cancel) h
    | inr t ↦ elim (Bool-cases (not (can_cancel a req))) [
      | inl u ↦ rw (t, u, cancel) h
      | inr u ↦
          rw (t, u, cancel)
            (claim_and_finish-Holds p req.id (transition canceled a.pk now note) a.pk src j v s
              (λ r. refl) final h)
    ]
  ]

  expire_rows-Holds :
      (now : ℕ) (is : List ℕ) (n : ℕ) (s : State)
      → Holds j v s
      → Holds j v (expire_rows p now is n s).1
  unfolding expire_rows
  expire_rows-Holds now [] n s h = h
  expire_rows-Holds now (i ∷ is) n s h =
      expire_rows-Holds now is _ _
        (claim_and_finish-Holds p i (expiry_transition now) none expiry j v s (λ r. refl) final h)

  request_approval-Holds :
      (f : Filing) (a : Actor) (src : Source) (id now : ℕ) (s : State)
      → Holds j v s
      → Holds j v (request_approval p f a src id now s).1
  unfolding request_approval
  request_approval-Holds f a src id now s (r, e, d) = elim (Bool-cases (not p.enabled)) [
    | inl t ↦ rw (t, request_approval) (r, e, d)
    | inr t ↦ elim (Bool-cases (is_over_cap p f.kind a.pk now s)) [
      | inl u ↦ rw (t, u, request_approval) (r, e, d)
      | inr u ↦ elim (Bool-cases (f.require_known_kind && is_none (p.get_kind f.kind))) [
        | inl w ↦ rw (t, u, w, request_approval) (r, e, d)
        | inr w ↦
            rw (t, u, w, request_approval) (r, find-append-some (has_id j) s.requests _ r e, d)
      ]
    ]
  ]

-- One call of the service, on whatever its caller had read.
pub data Step (p : Policy) : State → State → Type 0 where
  file :
      (f : Filing) (a : Actor) (src : Source) (id now : ℕ) (s : State)
      → Step p s (request_approval p f a src id now s).1
  judge :
      (req : ApprovalRequest) (a : Actor) (b : Bool) (note : String) (src : Source) (now : ℕ)
      (s : State)
      → Step p s (decide p req a b note src now s).1
  withdraw :
      (req : ApprovalRequest) (a : Actor) (note : String) (src : Source) (now : ℕ) (s : State)
      → Step p s (cancel p req a note src now s).1
  sweep :
      (order : List ApprovalRequest → List ApprovalRequest) (limit : Option ℕ) (now : ℕ) (s : State)
      → Step p s (mark_expired p order limit now s).1

pub data Reach (p : Policy) (s : State) : State → Type 0 where
  here : Reach p s s
  next : {t u : State} → Reach p s t → Step p t u → Reach p s u

Step-Holds :
    {p : Policy} {s t : State} (j : ℕ) (v : Decision)
    → v.status ≢ pending
    → Step p s t
    → Holds j v s
    → Holds j v t
unfolding mark_expired
Step-Holds {p} j v n (file f a src id now s) h = request_approval-Holds p j v n f a src id now s h
Step-Holds {p} j v n (judge req a b note src now s) h =
    decide-Holds p j v n req a b note src now s h
Step-Holds {p} j v n (withdraw req a note src now s) h = cancel-Holds p j v n req a note src now s h
Step-Holds {p} j v n (sweep order limit now s) h = expire_rows-Holds p j v n now _ 0 s h

-- A request that has left `pending` keeps its status, its decider, its time and its note, through
-- any further sequence of filings, decisions, cancellations and sweeps, on stale data or not.
pub Reach-Holds :
    {p : Policy} {s t : State} (j : ℕ) (v : Decision)
    → v.status ≢ pending
    → Reach p s t
    → Holds j v s
    → Holds j v t
Reach-Holds j v n here h = h
Reach-Holds j v n (next r st) h = Step-Holds j v n st (Reach-Holds j v n r h)
