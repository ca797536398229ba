-- ===== src/Webhooks/Deliveries/Attempts.antt =====
-- apps/webhooks/tasks.py: the attempts of one delivery, against its budget.
use smallstack_tabler.Prelude.{
  ℕ, ◌+◌, ◌≤◌, ◌<◌, ◌≡◌, refl, sym, ◌∙◌, ap, Bool, true, false, ◌||◌, Option, none, some, List, [],
  ◌∷◌, arith, count_where, is_none, not, Option-cases, find, find-test, find-update_where, leb,
  Bool-cases, inl, inr, ◌⊎◌, subst, ◌==◌, ==→eq, if◌then◌else◌,
}
use smallstack_tabler.Webhooks.Deliveries.{
  Status, success, dead, retrying, WebhookDelivery, State, DeliverySettings, Sent, has_delivery_id,
  is_terminal, is_success, bump_endpoint, attempted, save_attempt, record_attempt, deliver_webhook,
}

abbrev found : ℕ → State → Option WebhookDelivery
found i st = find (has_delivery_id i) st.deliveries

-- A budget holds, and a delivery that has not ended has an attempt left.
pub record InBudget (d : WebhookDelivery) : Type 0 where
  pub bounded : d.attempt ≤ d.max_attempts
  pub attempt_left : is_terminal d ≡ false → d.attempt < d.max_attempts

bump_endpoint-deliveries :
    (s : DeliverySettings) (e : ℕ) (ok : Bool) (status : Status) (now : ℕ) (st : State)
    → (bump_endpoint s e ok status now st).deliveries ≡ st.deliveries
unfolding bump_endpoint
bump_endpoint-deliveries s e ok status now st =
    elim (Bool-cases (ok || s.auto_disable_after == 0)) [
      | inl t ↦ rw (t, bump_endpoint)
      | inr f ↦ rw (f, bump_endpoint)
    ]

save_attempt-found :
    (i attempt : ℕ) (sent : Sent) (status : Status) (next : Option ℕ) (st : State)
    (d : WebhookDelivery)
    → found i st ≡ some d
    → found i (save_attempt i attempt sent status next st)
      ≡ some (attempted attempt sent status next d)
unfolding save_attempt
save_attempt-found i attempt sent status next st d e =
    let same : has_delivery_id i d ≡ true = find-test (has_delivery_id i) st.deliveries d e in
    find-update_where (has_delivery_id i) (has_delivery_id i) (attempted attempt sent status next)
      st.deliveries (λ x. kept x (has_delivery_id i x))
    ∙ rw e (ap some (rw same))
  where
    kept :
        (x : WebhookDelivery) (b : Bool)
        → has_delivery_id i (if b then attempted attempt sent status next x else x)
          ≡ has_delivery_id i x
    kept x true = refl
    kept x false = refl

-- What one more attempt leaves of the row.
pub record IsNext (s : DeliverySettings) (d n : WebhookDelivery) : Type 0 where
  pub counted : n.attempt ≡ d.attempt + 1
  pub same_budget : n.max_attempts ≡ d.max_attempts
  pub ends : d.max_attempts ≤ d.attempt + 1 → is_terminal n ≡ true

record_attempt-found :
    (s : DeliverySettings) (sent : Sent) (now : ℕ) (st : State) (d : WebhookDelivery)
    → found d.id st ≡ some d
    → (n : WebhookDelivery) × (found d.id (record_attempt s d (d.attempt + 1) sent now st) ≡ some n)
      × IsNext s d n
unfolding record_attempt is_terminal
record_attempt-found s sent now st d e = elim (Bool-cases (is_success sent.status_code)) [
  | inl ok ↦
      rw (ok, record_attempt, bump_endpoint-deliveries)
        (
          attempted (d.attempt + 1) sent success none d,
          save_attempt-found d.id (d.attempt + 1) sent success none st d e,
          record { counted = refl; same_budget = refl; ends = λ _. refl },
        )
  | inr bad ↦ elim (Bool-cases (leb d.max_attempts (d.attempt + 1))) [
    | inl spent ↦
        rw (bad, spent, record_attempt, bump_endpoint-deliveries)
          (
            attempted (d.attempt + 1) sent dead none d,
            save_attempt-found d.id (d.attempt + 1) sent dead none st d e,
            record { counted = refl; same_budget = refl; ends = λ _. refl },
          )
    | inr left ↦
        rw (bad, left, record_attempt, bump_endpoint-deliveries)
          (
            attempted (d.attempt + 1) sent retrying _ d,
            save_attempt-found d.id (d.attempt + 1) sent retrying _ st d e,
            record { counted = refl; same_budget = refl; ends = λ h. ground arith },
          )
  ]
]

-- The delivery task of one row, run at the given times, by how each run's send ended.
unfoldable pub deliver_times : DeliverySettings → List (Option Sent × ℕ) → ℕ → State → State
deliver_times s [] i st = st
deliver_times s ((sent, now) ∷ rest) i st =
    deliver_times s rest i (deliver_webhook s (λ d. sent) i now st)

-- The run's send came to an end.
abbrev pub is_sent : Option Sent × ℕ → Bool
is_sent run = not (is_none run.0)

deliver_webhook-raises :
    (s : DeliverySettings) (i now : ℕ) (st : State) → deliver_webhook s (λ d. none) i now st ≡ st
unfolding deliver_webhook
deliver_webhook-raises s i now st = elim (Option-cases (found i st)) [
  | inl e ↦ rw (e, deliver_webhook)
  | inr (d, e) ↦ elim (Bool-cases (is_terminal d)) [
    | inl t ↦ rw (e, t, deliver_webhook)
    | inr f ↦ rw (e, f, deliver_webhook)
  ]
]

deliver_webhook-terminal :
    (s : DeliverySettings) (send : WebhookDelivery → Option Sent) (i now : ℕ) (st : State)
    (d : WebhookDelivery)
    → found i st ≡ some d
    → is_terminal d ≡ true
    → deliver_webhook s send i now st ≡ st
unfolding deliver_webhook
deliver_webhook-terminal s send i now st d e t = rw (e, t, deliver_webhook)

deliver_webhook-IsNext :
    (s : DeliverySettings) (sent : Sent) (i now : ℕ) (st : State) (d : WebhookDelivery)
    → found i st ≡ some d
    → is_terminal d ≡ false
    → (n : WebhookDelivery) × (found i (deliver_webhook s (λ x. some sent) i now st) ≡ some n)
      × IsNext s d n
unfolding deliver_webhook
deliver_webhook-IsNext s sent i now st d e t =
    let same : d.id ≡ i = ==→eq d.id i (find-test (has_delivery_id i) st.deliveries d e) in
    rw (e, t, deliver_webhook)
      (subst
        (λ k.
          (n : WebhookDelivery) × (found k (record_attempt s d (d.attempt + 1) sent now st)
            ≡ some n)
          × IsNext s d n)
        same (record_attempt-found s sent now st d (subst (λ k. found k st ≡ some d) (sym same) e)))

-- A delivery within its budget has ended, in success or as a dead letter, after as many runs whose
-- send came to an end as it had attempts left, whatever these sends came to and when, and with any
-- runs in between whose send raised. The attempts recorded are at most as many as its budget says.
pub deliver_times-terminal :
    (s : DeliverySettings) (runs : List (Option Sent × ℕ)) (i : ℕ) (st : State)
    (d : WebhookDelivery)
    → found i st ≡ some d
    → InBudget d
    → (is_terminal d ≡ false → d.max_attempts ≤ d.attempt + count_where is_sent runs)
    → (n : WebhookDelivery) × (found i (deliver_times s runs i st) ≡ some n)
      × (is_terminal n ≡ true)
      × (n.attempt ≤ d.max_attempts)
unfolding deliver_times count_where
deliver_times-terminal s [] i st d e b enough = elim (Bool-cases (is_terminal d)) [
  | inl t ↦ (d, e, t, b.bounded)
  | inr f ↦
      let none_left : d.max_attempts ≤ d.attempt + 0 = enough f in
      absurd (omega (arith, b.attempt_left f))
]
deliver_times-terminal s ((none, now) ∷ runs) i st d e b enough =
    rw (deliver_times, deliver_webhook-raises s i now st)
      (deliver_times-terminal s runs i st d e b enough)
deliver_times-terminal s ((some sent, now) ∷ runs) i st d e b enough =
    elim (Bool-cases (is_terminal d)) [
      | inl t ↦
          rw (deliver_times, deliver_webhook-terminal s (λ x. some sent) i now st d e t)
            (deliver_times-terminal s runs i st d e b (λ f. absurd (true_false (sym t ∙ f))))
      | inr f ↦
          let (n, e', x) = deliver_webhook-IsNext s sent i now st d e f in
          let (m, e'', t, bound) =
            deliver_times-terminal s runs i (deliver_webhook s (λ x. some sent) i now st) n e'
              (record {
                bounded = omega (arith, x.counted, x.same_budget, b.attempt_left f);
                attempt_left =
                    λ g. left_over n x g (Bool-cases (leb d.max_attempts (d.attempt + 1)));
              })
              (λ g. omega (arith, x.counted, x.same_budget, enough f)) in
          (m, e'', t, omega (arith, x.same_budget))
    ]
  where
    true_false : true ≡ false → ⊥
    true_false p = cc

    left_over :
        (n : WebhookDelivery)
        → IsNext s d n
        → is_terminal n ≡ false
        → (leb d.max_attempts (d.attempt + 1) ≡ true) ⊎ (leb d.max_attempts (d.attempt + 1) ≡ false)
        → n.attempt < n.max_attempts
    left_over n x g (inl spent) = absurd (true_false (sym (x.ends (ground arith)) ∙ g))
    left_over n x g (inr left) =
        let more : d.attempt + 1 < d.max_attempts = ground arith in
        omega (arith, x.counted, x.same_budget)
