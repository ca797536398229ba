-- ===== src/Webhooks/Deliveries.antt =====
-- apps/webhooks/models.py, tasks.py and services.py: the attempts of an outbound delivery, its
-- backoff, and the tick that sends it again. Waits are in seconds, times in microseconds. How a
-- request is built, signed, guarded and sent is left out: a send ends in a `Sent`, or raises.
pub mod Attempts
pub mod Stranded
use smallstack_tabler.Prelude.{
  ℕ, zero, suc, ◌+◌, ◌-◌, ◌*◌, min, String, Bool, true, false, not, ◌&&◌, ◌||◌, Option, none, some,
  List, [], ◌∷◌, ◌++◌, leb, ltb, ◌==◌, same_option, is_none, take, any_row, find, filter_rows,
  update_where, seconds, if◌then◌else◌,
}

-- `WebhookDelivery.Status`.
pub data Status : Type 0 where
  pending retrying success failed dead : Status

abbrev pub status_eq : Status → Status → Bool
status_eq pending pending = true
status_eq retrying retrying = true
status_eq success success = true
status_eq failed failed = true
status_eq dead dead = true
status_eq _ _ = false

pub record WebhookDelivery : Type 0 where
  pub id : ℕ
  pub endpoint_id : ℕ
  pub event_type : String
  pub payload : String
  pub event_id : Option ℕ
  pub status : Status
  pub attempt : ℕ
  pub max_attempts : ℕ
  pub next_attempt_at : Option ℕ
  pub response_status : Option ℕ
  pub response_ms : Option ℕ
  pub error : List ℕ
  pub created_at : ℕ

-- The columns of an endpoint that a delivery writes; `last_status` is blank at first.
pub record WebhookEndpoint : Type 0 where
  pub id : ℕ
  pub enabled : Bool
  pub last_delivery_at : Option ℕ
  pub last_status : Option Status
  pub total_deliveries : ℕ
  pub consecutive_failures : ℕ

-- The tables, the ids that `deliver_webhook.enqueue` was given, and those of the dead letters that
-- the owner was told of.
pub record State : Type 0 where
  pub endpoints : List WebhookEndpoint
  pub deliveries : List WebhookDelivery
  pub queue : List ℕ
  pub notices : List ℕ

-- SMALLSTACK_WEBHOOK_BACKOFF (none when unset), …_MAX_BACKOFF and …_AUTO_DISABLE_AFTER.
pub record DeliverySettings : Type 0 where
  pub webhooks_enabled : Bool
  pub backoff : List ℕ
  pub max_backoff : ℕ
  pub auto_disable_after : ℕ

-- How a send ended. `retry_after` is the parsed header of a 429 or 503.
pub record Sent : Type 0 where
  pub status_code : Option ℕ
  pub elapsed_ms : ℕ
  pub error : List ℕ
  pub retry_after : Option ℕ

abbrev pub has_delivery_id : ℕ → WebhookDelivery → Bool
has_delivery_id i d = d.id == i

abbrev pub has_endpoint_id : ℕ → WebhookEndpoint → Bool
has_endpoint_id i e = e.id == i

-- `is_terminal`.
unfoldable pub is_terminal : WebhookDelivery → Bool
is_terminal d = status_eq d.status success || status_eq d.status dead

-- `schedule[max(0, min(n, len(schedule) - 1))]` on a schedule of at least one wait.
abbrev pub pick : ℕ → ℕ → List ℕ → ℕ
pick n x [] = x
pick zero x (y ∷ rest) = x
pick (suc n) x (y ∷ rest) = pick n y rest

unfoldable pub backoff_seconds : DeliverySettings → ℕ → ℕ
backoff_seconds s attempt = elim s.backoff [
  | [] ↦ pick (attempt - 1) 60 (300 ∷ 1800 ∷ 7200 ∷ 21600 ∷ [])
  | x ∷ rest ↦ pick (attempt - 1) x rest
]

abbrev pub clamp_backoff : DeliverySettings → ℕ → ℕ
clamp_backoff s n = min n s.max_backoff

-- The wait before the next attempt: Retry-After wins over the table.
unfoldable pub wait : DeliverySettings → Option ℕ → ℕ → ℕ
wait s none attempt = backoff_seconds s attempt
wait s (some n) attempt = clamp_backoff s n

-- `succeeded`.
abbrev pub is_success : Option ℕ → Bool
is_success none = false
is_success (some c) = leb 200 c && ltb c 300

-- `_bump_endpoint`: the counters, and the endpoint turned off after too many failures in a row.
abbrev pub bumped : ℕ → Bool → Status → WebhookEndpoint → WebhookEndpoint
bumped now true status e = record e {
  last_delivery_at = some now;
  last_status = some success;
  total_deliveries = e.total_deliveries + 1;
  consecutive_failures = 0;
}
bumped now false status e = record e {
  last_delivery_at = some now;
  last_status = some status;
  total_deliveries = e.total_deliveries + 1;
  consecutive_failures = e.consecutive_failures + 1;
}

abbrev pub is_worn : DeliverySettings → ℕ → WebhookEndpoint → Bool
is_worn s i e =
    has_endpoint_id i e && (leb s.auto_disable_after e.consecutive_failures && e.enabled)

unfoldable pub bump_endpoint : DeliverySettings → ℕ → Bool → Status → ℕ → State → State
bump_endpoint s i ok status now st =
    let counted = update_where (has_endpoint_id i) (bumped now ok status) st.endpoints in
    if ok || s.auto_disable_after == 0 then record st { endpoints = counted } else record st {
      endpoints = update_where (is_worn s i) (λ e. record e { enabled = false }) counted;
    }

-- `delivery.save(update_fields=_ATTEMPT_FIELDS)` of one attempt.
abbrev pub attempted : ℕ → Sent → Status → Option ℕ → WebhookDelivery → WebhookDelivery
attempted attempt sent status next d = record d {
  attempt = attempt;
  response_status = sent.status_code;
  response_ms = some sent.elapsed_ms;
  error = take 2000 sent.error;
  status = status;
  next_attempt_at = next;
}

unfoldable pub save_attempt : ℕ → ℕ → Sent → Status → Option ℕ → State → State
save_attempt i attempt sent status next st = record st {
  deliveries = update_where (has_delivery_id i) (attempted attempt sent status next) st.deliveries;
}

-- `_record_attempt`.
unfoldable pub record_attempt : DeliverySettings → WebhookDelivery → ℕ → Sent → ℕ → State → State
unfolding bump_endpoint
record_attempt s d attempt sent now st =
    if is_success sent.status_code
    then bump_endpoint s d.endpoint_id true success now
        (save_attempt d.id attempt sent success none st)
    else if leb d.max_attempts attempt
    then (let after =
          bump_endpoint s d.endpoint_id false dead now
            (save_attempt d.id attempt sent dead none st) in
        record after { notices = after.notices ++ d.id ∷ [] })
    else bump_endpoint s d.endpoint_id false retrying now (
        save_attempt d.id attempt sent retrying
          (some (now + seconds (wait s sent.retry_after attempt))) st)

-- `deliver_webhook`. `send` is the request to the endpoint, `none` if an exception ends the task:
-- the transform, the auth and the URL guard are called outside the `try`, and a Retry-After that
-- `int` refuses raises inside a handler of it. Nothing is recorded of such an attempt.
unfoldable pub deliver_webhook :
    DeliverySettings → (WebhookDelivery → Option Sent) → ℕ → ℕ → State → State
deliver_webhook s send i now st = elim (find (has_delivery_id i) st.deliveries) [
  | none ↦ st
  | some d ↦
      if is_terminal d
      then st
      else elim (send d) [ none ↦ st | some sent ↦ record_attempt s d (d.attempt + 1) sent now st ]
]

-- `_enqueue_delivery`: `accepts` says whether the broker took the id. A failure is only logged.
abbrev pub enqueue_delivery : (ℕ → Bool) → ℕ → State → State
enqueue_delivery accepts i st = if accepts i then record st { queue = st.queue ++ i ∷ [] } else st

-- `filter(pk=delivery.pk, next_attempt_at=observed)`.
abbrev pub is_observed : ℕ → ℕ → WebhookDelivery → Bool
is_observed i observed d = has_delivery_id i d && same_option d.next_attempt_at observed

abbrev pub requeued : WebhookDelivery → WebhookDelivery
requeued d = record d { status = pending; next_attempt_at = none }

-- One turn of the loop of `run_due_deliveries`, on a row as the tick read it.
unfoldable pub claim_delivery : (ℕ → Bool) → WebhookDelivery → State → Bool × State
claim_delivery accepts d st = elim d.next_attempt_at [
  | none ↦ (false, st)
  | some observed ↦
      if any_row (is_observed d.id observed) st.deliveries
      then (
        true,
        enqueue_delivery accepts d.id (record st {
          deliveries = update_where (is_observed d.id observed) requeued st.deliveries;
        }),
      )
      else (false, st)
]

unfoldable pub claim_deliveries : (ℕ → Bool) → List WebhookDelivery → ℕ → State → ℕ × State
claim_deliveries accepts [] n st = (n, st)
claim_deliveries accepts (d ∷ ds) n st =
    let (won, after) = claim_delivery accepts d st in
    claim_deliveries accepts ds (if won then suc n else n) after

-- The queryset `due`.
abbrev pub is_due : ℕ → WebhookDelivery → Bool
is_due now d =
    status_eq d.status retrying && elim d.next_attempt_at [ none ↦ false | some t ↦ leb t now ]

-- `run_due_deliveries`; `order` is the database's `order_by("next_attempt_at")`.
unfoldable pub run_due_deliveries :
    DeliverySettings
    → (ℕ → Bool)
    → (List WebhookDelivery → List WebhookDelivery)
    → ℕ
    → ℕ
    → State
    → ℕ × State
run_due_deliveries s accepts order limit now st =
    if not s.webhooks_enabled
    then (0, st)
    else claim_deliveries accepts (take limit (order (filter_rows (is_due now) st.deliveries))) 0 st
