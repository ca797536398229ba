-- ===== src/Webhooks/Deliveries/Stranded.antt =====
-- apps/webhooks/services.py: what the retry tick claims.
use smallstack_tabler.Prelude.{
  ℕ, ◌≡◌, refl, ◌∙◌, Bool, true, false, not, ◌&&◌, Option, none, some, List, [], ◌∷◌, ◌++◌, arith,
  any_row, any_row-update_self, count_where, count_where-append, update_where, Bool-cases, inl, inr,
  ◌==◌, is_none, if◌then◌else◌,
}
use smallstack_tabler.Webhooks.Deliveries.{
  WebhookDelivery, State, DeliverySettings, has_delivery_id, is_observed, enqueue_delivery,
  requeued, claim_delivery, claim_deliveries, run_due_deliveries,
}

-- Of two ticks that read a due delivery in the same row, the second claims nothing and writes
-- nothing, so one due time enqueues one send.
pub claim_delivery_once :
    (accepts accepts' : ℕ → Bool) (d : WebhookDelivery) (st : State)
    → claim_delivery accepts' d (claim_delivery accepts d st).1
      ≡ (false, (claim_delivery accepts d st).1)
unfolding claim_delivery
claim_delivery_once accepts accepts' d st = go d.next_attempt_at refl
  where
    cursorless : (t : State) → d.next_attempt_at ≡ none → claim_delivery accepts' d t ≡ (false, t)
    cursorless t e = rw (e, claim_delivery)

    lost :
        (observed : ℕ) (t : State)
        → d.next_attempt_at ≡ some observed
        → any_row (is_observed d.id observed) t.deliveries ≡ false
        → claim_delivery accepts' d t ≡ (false, t)
    lost observed t e h = rw (e, h, claim_delivery)

    queued :
        (t : State) (observed : ℕ) (b : Bool)
        → any_row
            (is_observed d.id observed)
            (if b then record t { queue = t.queue ++ d.id ∷ [] } else t).deliveries
          ≡ any_row (is_observed d.id observed) t.deliveries
    queued t observed true = refl
    queued t observed false = refl

    go :
        (o : Option ℕ)
        → d.next_attempt_at ≡ o
        → claim_delivery accepts' d (claim_delivery accepts d st).1
          ≡ (false, (claim_delivery accepts d st).1)
    go none e = cursorless (claim_delivery accepts d st).1 e
    go (some observed) e = elim (Bool-cases (any_row (is_observed d.id observed) st.deliveries)) [
      | inr f ↦ lost observed (claim_delivery accepts d st).1 e (rw (e, f, claim_delivery) f)
      | inl t ↦ lost observed (claim_delivery accepts d st).1 e (
          rw (e, t, claim_delivery)
            (queued
                (record st {
                  deliveries = update_where (is_observed d.id observed) requeued st.deliveries;
                })
                observed (accepts d.id)
              ∙ any_row-update_self (is_observed d.id observed) requeued st.deliveries
                  (λ x _. ground arith)))
    ]

-- No row of the delivery `i` has a retry cursor.
abbrev pub HasNoCursor : ℕ → State → Type 0
HasNoCursor i st =
    any_row (λ (d : WebhookDelivery). has_delivery_id i d && not (is_none d.next_attempt_at))
      st.deliveries
    ≡ false

-- How often the delivery task of `i` was enqueued.
abbrev pub sends : ℕ → State → ℕ
sends i st = count_where (λ k. k == i) st.queue

pub record IsLeft (i : ℕ) (st after : State) : Type 0 where
  pub no_cursor : HasNoCursor i after
  pub same_sends : sends i after ≡ sends i st

abbrev has_cursor : ℕ → WebhookDelivery → Bool
has_cursor i d = has_delivery_id i d && not (is_none d.next_attempt_at)

requeued-has_no_cursor :
    (i : ℕ) (p : WebhookDelivery → Bool) (ds : List WebhookDelivery)
    → any_row (has_cursor i) ds ≡ false
    → any_row (has_cursor i) (update_where p requeued ds) ≡ false
unfolding any_row update_where
requeued-has_no_cursor i p [] h = refl
requeued-has_no_cursor i p (d ∷ ds) h = ground (arith, requeued-has_no_cursor i p ds)

-- A claim that is won is not of a delivery without a cursor.
observed-other :
    (i k observed : ℕ) (ds : List WebhookDelivery)
    → any_row (has_cursor i) ds ≡ false
    → any_row (is_observed k observed) ds ≡ true
    → (k == i) ≡ false
unfolding any_row
observed-other i k observed [] h o = cc
observed-other i k observed (d ∷ ds) h o = ground (arith, observed-other i k observed ds)

enqueue_delivery-IsLeft :
    (accepts : ℕ → Bool) (i k : ℕ) (st : State)
    → HasNoCursor i st
    → (k == i) ≡ false
    → IsLeft i st (enqueue_delivery accepts k st)
unfolding count_where
enqueue_delivery-IsLeft accepts i k st h o = elim (Bool-cases (accepts k)) [
  | inr f ↦ rw f (record { no_cursor = h; same_sends = refl })
  | inl t ↦ rw t (record {
    no_cursor = h;
    same_sends =
        count_where-append (λ j. j == i) st.queue (k ∷ []) ∙ rw (o, count_where) (omega arith);
  })
]

claim_delivery-IsLeft :
    (accepts : ℕ → Bool) (d : WebhookDelivery) (i : ℕ) (st : State)
    → HasNoCursor i st
    → IsLeft i st (claim_delivery accepts d st).1
unfolding claim_delivery
claim_delivery-IsLeft accepts d i st h = go d.next_attempt_at refl
  where
    go : (o : Option ℕ) → d.next_attempt_at ≡ o → IsLeft i st (claim_delivery accepts d st).1
    go none e = rw (e, claim_delivery) (record { no_cursor = h; same_sends = refl })
    go (some observed) e = elim (Bool-cases (any_row (is_observed d.id observed) st.deliveries)) [
      | inr f ↦ rw (e, f, claim_delivery) (record { no_cursor = h; same_sends = refl })
      | inl t ↦
          let x =
            enqueue_delivery-IsLeft accepts i d.id
              (record st {
                deliveries = update_where (is_observed d.id observed) requeued st.deliveries;
              })
              (requeued-has_no_cursor i (is_observed d.id observed) st.deliveries h)
              (observed-other i d.id observed st.deliveries h t) in
          rw (e, t, claim_delivery) (record { no_cursor = x.no_cursor; same_sends = x.same_sends })
    ]

claim_deliveries-IsLeft :
    (accepts : ℕ → Bool) (ds : List WebhookDelivery) (n i : ℕ) (st : State)
    → HasNoCursor i st
    → IsLeft i st (claim_deliveries accepts ds n st).1
unfolding claim_deliveries
claim_deliveries-IsLeft accepts [] n i st h = record { no_cursor = h; same_sends = refl }
claim_deliveries-IsLeft accepts (d ∷ ds) n i st h =
    let x = claim_delivery-IsLeft accepts d i st h in
    let y = claim_deliveries-IsLeft accepts ds _ i (claim_delivery accepts d st).1 x.no_cursor in
    record { no_cursor = y.no_cursor; same_sends = y.same_sends ∙ x.same_sends }

-- A delivery that waits without a retry cursor, as one does when its enqueueing failed, is not sent
-- again by the tick: it enqueues nothing for it, and leaves it without a cursor.
pub run_due_deliveries-IsLeft :
    (s : DeliverySettings) (accepts : ℕ → Bool)
    (order : List WebhookDelivery → List WebhookDelivery) (limit now i : ℕ) (st : State)
    → HasNoCursor i st
    → IsLeft i st (run_due_deliveries s accepts order limit now st).1
unfolding run_due_deliveries
run_due_deliveries-IsLeft s accepts order limit now i st h =
    elim (Bool-cases (not s.webhooks_enabled)) [
      | inl t ↦ rw (t, run_due_deliveries) (record { no_cursor = h; same_sends = refl })
      | inr f ↦ rw (f, run_due_deliveries) (claim_deliveries-IsLeft accepts _ 0 i st h)
    ]
