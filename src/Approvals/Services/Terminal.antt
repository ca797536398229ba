-- ===== src/Approvals/Services/Terminal.antt =====
-- apps/approvals/services.py: a decided request under the claim and what follows it.
use smallstack_tabler.Prelude.{
  ℕ, String, ◌≡◌, ◌≢◌, refl, ap, ◌∙◌, Bool, true, false, not, Option, some, arith, any_row, find,
  find-update_kept, Bool-cases, Option-cases, inl, inr, if◌then◌else◌,
}
use smallstack_tabler.Approvals.Model.{Status, pending, ApprovalRequest, has_id}
use smallstack_tabler.Approvals.Permissions.{Policy}
use smallstack_tabler.Approvals.Services.{
  Source, State, is_claimable, write_claim, run_callback, callback_raises, finish, finish_row,
  claim_and_finish,
}

-- The columns that record a decision.
pub record Decision : Type 0 where
  pub status : Status
  pub decided_by : Option ℕ
  pub decided_at : Option ℕ
  pub note : String

abbrev pub decision_of : ApprovalRequest → Decision
decision_of r = record {
  status = r.status;
  decided_by = r.decided_by;
  decided_at = r.decided_at;
  note = r.decision_note;
}

-- Request `j` is on record with the decision `v`.
abbrev pub Holds : ℕ → Decision → State → Type 0
Holds j v s = (r : ApprovalRequest) × (find (has_id j) s.requests ≡ some r) × (decision_of r ≡ v)

-- What a claim writes leaves the id alone.
abbrev KeepsId : (ApprovalRequest → ApprovalRequest) → Type 0
KeepsId f = (r : ApprovalRequest) → (f r).id ≡ r.id

written-claimable :
    (i j : ℕ) (f : ApprovalRequest → ApprovalRequest) (x : ApprovalRequest)
    → KeepsId f
    → (b : Bool) → has_id j (if b then f x else x) ≡ has_id j x
written-claimable i j f x k true = rw (k x)
written-claimable i j f x k false = refl

write_claim-Holds :
    (i j : ℕ) (v : Decision) (f : ApprovalRequest → ApprovalRequest) (s : State)
    → KeepsId f
    → v.status ≢ pending
    → Holds j v s
    → Holds j v (write_claim i f s)
unfolding write_claim
write_claim-Holds i j v f s k n (r, e, d) =
    let closed : is_claimable i r ≡ false = not_claimable (ap (λ (x : Decision). x.status) d) in
    let (b, found, same) =
      find-update_kept decision_of (has_id j) (is_claimable i) f s.requests r e
        (λ x. written-claimable i j f x k (is_claimable i x)) (rw closed) in
    (b, found, same ∙ d)
  where
    not_claimable : r.status ≡ v.status → is_claimable i r ≡ false
    not_claimable h = ground arith

run_callback-Holds :
    (p : Policy) (q : ApprovalRequest) (j : ℕ) (v : Decision) (s : State)
    → Holds j v s
    → Holds j v (run_callback p q s)
unfolding run_callback
run_callback-Holds p q j v s (r, e, d) = elim (Bool-cases (callback_raises p q)) [
  | inr f ↦ rw (f, run_callback) (r, e, d)
  | inl t ↦
      let (b, found, same) =
        find-update_kept decision_of (has_id j) (has_id q.id)
          (λ x. record x { callback_error = true }) s.requests r e (λ x. ground arith)
          (ground arith) in
      rw (t, run_callback) (b, found, same ∙ d)
]

finish_row-Holds :
    (p : Policy) (i : ℕ) (a : Option ℕ) (src : Source) (j : ℕ) (v : Decision) (s : State)
    → Holds j v s
    → Holds j v (finish_row p i a src s).1
unfolding finish_row finish
finish_row-Holds p i a src j v s h = elim (Option-cases (find (has_id i) s.requests)) [
  | inl e ↦ rw (e, finish_row) h
  | inr (r, e) ↦ rw (e, finish_row) (run_callback-Holds p r j v s h)
]

pub claim_and_finish-Holds :
    (p : Policy) (i : ℕ) (f : ApprovalRequest → ApprovalRequest) (a : Option ℕ) (src : Source)
    (j : ℕ) (v : Decision) (s : State)
    → KeepsId f
    → v.status ≢ pending
    → Holds j v s
    → Holds j v (claim_and_finish p i f a src s).1
unfolding claim_and_finish
claim_and_finish-Holds p i f a src j v s k n h =
    elim (Bool-cases (not (any_row (is_claimable i) s.requests))) [
      | inl t ↦ rw (t, claim_and_finish) h
      | inr g ↦
          rw (g, claim_and_finish)
            (finish_row-Holds p i a src j v (write_claim i f s) (write_claim-Holds i j v f s k n h))
    ]
