-- ===== src/Tests/Webhooks.antt =====
-- A delivery to an endpoint that is down, and the theorems on deliveries at it.
use smallstack_tabler.Prelude.{
  ◌≡◌, ◌≤◌, refl, Option, count_where, true, false, none, some, [], ◌∷◌, arith, any_row, find,
}
use smallstack_tabler.Webhooks.Deliveries.{
  pending, retrying, WebhookDelivery, WebhookEndpoint, State, DeliverySettings, Sent,
  has_delivery_id, is_terminal, claim_delivery, run_due_deliveries,
}
use smallstack_tabler.Webhooks.Deliveries.Attempts.{deliver_times, deliver_times-terminal}
use smallstack_tabler.Webhooks.Deliveries.Stranded.{
  IsLeft, HasNoCursor, claim_delivery_once, run_due_deliveries-IsLeft,
}

abbrev settings : DeliverySettings
settings = record {
  webhooks_enabled = true;
  backoff = [];
  max_backoff = 21600;
  auto_disable_after = 20;
}

abbrev endpoint : WebhookEndpoint
endpoint = record {
  id = 1;
  enabled = true;
  last_delivery_at = none;
  last_status = none;
  total_deliveries = 0;
  consecutive_failures = 0;
}

abbrev waiting : WebhookDelivery
waiting = record {
  id = 7;
  endpoint_id = 1;
  event_type = "shop.order.created";
  payload = "";
  event_id = none;
  status = retrying;
  attempt = 1;
  max_attempts = 3;
  next_attempt_at = some 50;
  response_status = some 503;
  response_ms = some 12;
  error = [];
  created_at = 1;
}

abbrev state : State
state = record { endpoints = endpoint ∷ []; deliveries = waiting ∷ []; queue = []; notices = [] }

abbrev down : Option Sent
down = some (record { status_code = some 503; elapsed_ms = 10; error = []; retry_after = some 5 })

deliver_times-terminal_example :
    (n : WebhookDelivery) × (find
        (has_delivery_id 7)
        (deliver_times settings ((down, 60) ∷ (none, 65) ∷ (down, 70) ∷ []) 7 state).deliveries
      ≡ some n)
    × (is_terminal n ≡ true)
    × (n.attempt ≤ 3)
unfolding find is_terminal count_where
deliver_times-terminal_example =
    deliver_times-terminal settings ((down, 60) ∷ (none, 65) ∷ (down, 70) ∷ []) 7 state waiting refl
      (record { bounded = omega arith; attempt_left = λ h. omega arith }) (λ h. omega arith)

claim_delivery_once_example :
    claim_delivery (λ i. true) waiting (claim_delivery (λ i. true) waiting state).1
    ≡ (false, (claim_delivery (λ i. true) waiting state).1)
claim_delivery_once_example = claim_delivery_once (λ i. true) (λ i. true) waiting state

-- Its enqueueing failed: it is PENDING, and no cursor is set.
abbrev stranded : State
stranded = record state {
  deliveries = record waiting { status = pending; next_attempt_at = none } ∷ [];
}

stranded-HasNoCursor : HasNoCursor 7 stranded
unfolding any_row
stranded-HasNoCursor = refl

run_due_deliveries-IsLeft_example :
    IsLeft 7 stranded (run_due_deliveries settings (λ i. true) (λ ds. ds) 200 90 stranded).1
run_due_deliveries-IsLeft_example =
    run_due_deliveries-IsLeft settings (λ i. true) (λ ds. ds) 200 90 7 stranded stranded-HasNoCursor
