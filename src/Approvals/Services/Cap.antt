-- ===== src/Approvals/Services/Cap.antt =====
-- apps/approvals/services.py: the cap on a requester's pending requests.
use smallstack_tabler.Prelude.{
  ℕ, ◌∙◌, ◌+◌, ◌≤◌, ◌<◌, ◌≡◌, Bool, false, not, ◌&&◌, some, List, [], ◌∷◌, ◌++◌, String, arith,
  count_where, count_where-append, Bool-cases, inl, inr, is_none,
}
use smallstack_tabler.Approvals.Model.{ApprovalRequest}
use smallstack_tabler.Approvals.Permissions.{Actor, Policy}
use smallstack_tabler.Approvals.Services.{
  Source, State, done, approvals_disabled, too_many_pending, unknown_kind, Filing, new_request,
  request_approval, is_outstanding, is_over_cap,
}

-- How many actionable requests of one kind a requester has.
abbrev pub outstanding : ℕ → String → ℕ → State → ℕ
outstanding i kind now s = count_where (is_outstanding i kind now) s.requests

one_more :
    (p : ApprovalRequest → Bool) (rs : List ApprovalRequest) (r : ApprovalRequest)
    → count_where p (rs ++ r ∷ []) ≤ count_where p rs + 1
unfolding count_where
one_more p rs r = elim (Bool-cases (p r)) [
  | inl t ↦
      let same : count_where p (rs ++ r ∷ []) ≡ count_where p rs + 1 =
        count_where-append p rs (r ∷ []) ∙ rw t in
      omega (arith, same)
  | inr f ↦
      let same : count_where p (rs ++ r ∷ []) ≡ count_where p rs + 0 =
        count_where-append p rs (r ∷ []) ∙ rw f in
      omega (arith, same)
]

below_cap :
    (p : Policy) (kind : String) (i now : ℕ) (s : State)
    → 0 < p.max_pending_per_requester
    → is_over_cap p kind (some i) now s ≡ false
    → outstanding i kind now s < p.max_pending_per_requester
unfolding is_over_cap
below_cap p kind i now s pos h = ground arith

-- A filing that succeeds leaves its requester with at most as many actionable requests of the kind
-- as the cap allows, where there is one.
pub request_approval-outstanding :
    (p : Policy) (f : Filing) (a : Actor) (src : Source) (i id now : ℕ) (s : State)
    (out : ApprovalRequest)
    → 0 < p.max_pending_per_requester
    → a.pk ≡ some i
    → (request_approval p f a src id now s).0 ≡ done out
    → outstanding i f.kind now (request_approval p f a src id now s).1 ≤ p.max_pending_per_requester
unfolding request_approval
request_approval-outstanding p f a src i id now s out pos who e =
    elim (Bool-cases (not p.enabled)) [
      | inl t ↦ let no_way : approvals_disabled ≡ done out = rw (t, request_approval) at e in cc
      | inr t ↦ elim (Bool-cases (is_over_cap p f.kind a.pk now s)) [
        | inl u ↦ let no_way : too_many_pending ≡ done out = rw (t, u, request_approval) at e in cc
        | inr u ↦ elim (Bool-cases (f.require_known_kind && is_none (p.get_kind f.kind))) [
          | inl w ↦ let no_way : unknown_kind ≡ done out = rw (t, u, w, request_approval) at e in cc
          | inr w ↦
              let below : outstanding i f.kind now s < p.max_pending_per_requester =
                below_cap p f.kind i now s pos (rw who at u) in
              rw (t, u, w, request_approval)
                (omega (
                  arith,
                  below,
                  one_more (is_outstanding i f.kind now) s.requests (new_request p f a id now),
                ))
        ]
      ]
    ]
