-- ===== src/Approvals/Services/Once.antt =====
-- apps/approvals/services.py: two decisions on one request.
use smallstack_tabler.Prelude.{
  ℕ, ◌≡◌, ◌≢◌, refl, sym, subst, ◌∙◌, String, Bool, true, false, not, Option, none, arith, any_row,
  find, any_row-update_where, any_row-update_self, Bool-cases, Option-cases, inl, inr,
  if◌then◌else◌,
}
use smallstack_tabler.Approvals.Model.{
  pending, status_eq, ApprovalRequest, has_id, is_pending, is_overdue,
}
use smallstack_tabler.Approvals.Permissions.{Actor, Policy, can_decide}
use smallstack_tabler.Approvals.Services.{
  Source, expiry, State, Result, done, not_pending, not_eligible, approvals_disabled, is_claimable,
  transition, expiry_transition, write_claim, run_callback, callback_raises, finish, finish_row,
  claim_and_finish, verdict, decide,
}

-- A call that neither decided nor wrote.
pub record IsRefused (s : State) (r : Result × State) : Type 0 where
  pub same : r.1 ≡ s
  pub not_done : (q : ApprovalRequest) → r.0 ≢ done q

-- No request with the id `i` is pending.
abbrev pub IsClosed : ℕ → State → Type 0
IsClosed i s = any_row (is_claimable i) s.requests ≡ false

run_callback-claimable :
    (p : Policy) (q : ApprovalRequest) (i : ℕ) (s : State)
    → any_row (is_claimable i) (run_callback p q s).requests ≡ any_row (is_claimable i) s.requests
unfolding run_callback
run_callback-claimable p q i s = elim (Bool-cases (callback_raises p q)) [
  | inr f ↦ rw (f, run_callback)
  | inl t ↦
      rw (t, run_callback)
        (any_row-update_where (is_claimable i) (has_id q.id)
          (λ x. record x { callback_error = true }) s.requests (λ x. kept x (has_id q.id x)))
]
  where
    kept :
        (x : ApprovalRequest) (b : Bool)
        → is_claimable i (if b then record x { callback_error = true } else x) ≡ is_claimable i x
    kept x true = refl
    kept x false = refl

finish_row-IsClosed :
    (p : Policy) (i : ℕ) (a : Option ℕ) (src : Source) (s : State)
    → IsClosed i s
    → IsClosed i (finish_row p i a src s).1
unfolding finish_row finish
finish_row-IsClosed p i a src s h = elim (Option-cases (find (has_id i) s.requests)) [
  | inl e ↦ rw (e, finish_row) h
  | inr (r, e) ↦ rw (e, finish_row) (run_callback-claimable p r i s ∙ h)
]

claim_and_finish-IsClosed :
    (p : Policy) (i : ℕ) (f : ApprovalRequest → ApprovalRequest) (a : Option ℕ) (src : Source)
    (s : State)
    → ((r : ApprovalRequest) → is_pending (f r) ≡ false)
    → IsClosed i (claim_and_finish p i f a src s).1
unfolding claim_and_finish write_claim
claim_and_finish-IsClosed p i f a src s k =
    elim (Bool-cases (any_row (is_claimable i) s.requests)) [
      | inr c ↦ rw (c, claim_and_finish) c
      | inl o ↦
          rw (o, claim_and_finish)
            (finish_row-IsClosed p i a src (write_claim i f s)
              (any_row-update_self (is_claimable i) f s.requests (λ x _. ground (arith, k x))))
    ]

claim_and_finish-IsRefused :
    (p : Policy) (i : ℕ) (f : ApprovalRequest → ApprovalRequest) (a : Option ℕ) (src : Source)
    (s : State)
    → IsClosed i s
    → claim_and_finish p i f a src s ≡ (not_pending, s)
unfolding claim_and_finish
claim_and_finish-IsRefused p i f a src s h = rw (h, claim_and_finish)

IsRefused-with :
    (s : State) (r : Result) → ((q : ApprovalRequest) → r ≢ done q) → IsRefused s (r, s)
IsRefused-with s r n = record { same = refl; not_done = n }

decide-IsRefused :
    (p : Policy) (req : ApprovalRequest) (a : Actor) (b : Bool) (note : String) (src : Source)
    (now : ℕ) (s : State)
    → IsClosed req.id s
    → IsRefused s (decide p req a b note src now s)
unfolding decide
decide-IsRefused p req a b note src now s h = elim (Bool-cases (not p.enabled)) [
  | inl t ↦ rw (t, decide) (IsRefused-with s approvals_disabled (λ q e. cc))
  | inr t ↦ elim (Bool-cases (is_overdue now req)) [
    | inl u ↦
        rw
          (
            t,
            u,
            claim_and_finish-IsRefused p req.id (expiry_transition now) none expiry s h,
            decide,
          )
          (IsRefused-with s not_pending (λ q e. cc))
    | inr u ↦ elim (Bool-cases (not (is_pending req))) [
      | inl w ↦ rw (t, u, w, decide) (IsRefused-with s not_pending (λ q e. cc))
      | inr w ↦ elim (Bool-cases (not (can_decide p a req))) [
        | inl x ↦ rw (t, u, w, x, decide) (IsRefused-with s not_eligible (λ q e. cc))
        | inr x ↦
            rw
              (
                t,
                u,
                w,
                x,
                claim_and_finish-IsRefused p req.id (transition (verdict b) a.pk now note) a.pk src
                    s h,
                decide,
              )
              (IsRefused-with s not_pending (λ q e. cc))
      ]
    ]
  ]
]

verdict-final : (b : Bool) → status_eq (verdict b) pending ≡ false
verdict-final true = refl
verdict-final false = refl

-- A call that decided left no pending request of that id.
decide-IsClosed :
    (p : Policy) (req : ApprovalRequest) (a : Actor) (b : Bool) (note : String) (src : Source)
    (now : ℕ) (s : State) (out : ApprovalRequest)
    → (decide p req a b note src now s).0 ≡ done out
    → IsClosed req.id (decide p req a b note src now s).1
unfolding decide
decide-IsClosed p req a b note src now s out e = elim (Bool-cases (not p.enabled)) [
  | inl t ↦ let no : approvals_disabled ≡ done out = rw (t, decide) at e in cc
  | inr t ↦ elim (Bool-cases (is_overdue now req)) [
    | inl u ↦ let no : not_pending ≡ done out = rw (t, u, decide) at e in cc
    | inr u ↦ elim (Bool-cases (not (is_pending req))) [
      | inl w ↦ let no : not_pending ≡ done out = rw (t, u, w, decide) at e in cc
      | inr w ↦ elim (Bool-cases (not (can_decide p a req))) [
        | inl x ↦ let no : not_eligible ≡ done out = rw (t, u, w, x, decide) at e in cc
        | inr x ↦
            rw (t, u, w, x, decide)
              (claim_and_finish-IsClosed p req.id (transition (verdict b) a.pk now note) a.pk src s
                (λ _. verdict-final b))
      ]
    ]
  ]
]

-- Once a call has decided a request, a further one on the same request is refused and writes
-- nothing, whoever makes it, whatever it had read of the request and whatever it decides.
pub decide_once :
    (p p' : Policy) (req req' : ApprovalRequest) (a a' : Actor) (b b' : Bool) (note note' : String)
    (src src' : Source) (now now' : ℕ) (s : State) (out : ApprovalRequest)
    → (decide p req a b note src now s).0 ≡ done out
    → req'.id ≡ req.id
    → IsRefused
        (decide p req a b note src now s).1
        (decide p' req' a' b' note' src' now' (decide p req a b note src now s).1)
decide_once p p' req req' a a' b b' note note' src src' now now' s out e same =
    decide-IsRefused p' req' a' b' note' src' now' (decide p req a b note src now s).1 (
      subst (λ i. IsClosed i (decide p req a b note src now s).1) (sym same)
        (decide-IsClosed p req a b note src now s out e))
