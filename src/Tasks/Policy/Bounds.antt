-- ===== src/Tasks/Policy/Bounds.antt =====
-- apps/tasks/reliability.py: the waits between attempts: jitter, doubling and cap.
use smallstack_tabler.Prelude.{ℕ, suc, min, ap, ◌-◌, ◌*◌, ◌/◌, ◌^◌, ◌≤◌, ◌≡◌, arith, or_else}
use native.Mathlib.Nat.{pow-suc}
use smallstack_tabler.Tasks.Policy.{RetryPolicy, RetrySettings, delay, delay_base}

sub-one : (n : ℕ) → suc n - 1 ≡ n
sub-one n = omega arith

sub-two : (n : ℕ) → suc (suc n) - 1 ≡ suc n
sub-two n = omega arith

-- If the draw of the jitter never passes its bound, each wait lies between half of its bound and
-- the bound, and below the cap of the backoff.
pub delay_bounds :
    (s : RetrySettings) (uniform : ℕ → ℕ) (p : RetryPolicy) (attempt : ℕ)
    → ((b : ℕ) → uniform b ≤ b)
    → (delay_base s p attempt / 2 ≤ delay s uniform p attempt)
      × (delay s uniform p attempt ≤ delay_base s p attempt)
      × (delay s uniform p attempt ≤ or_else p.backoff_max s.backoff_max_default)
unfolding delay delay_base
delay_bounds s uniform p attempt u =
    let base = delay_base s p attempt in
    (omega arith, omega (arith, u (base / 2)), omega (arith, u (base / 2)))

power-suc : (i n : ℕ) → i * 2 ^ (suc (suc n) - 1) ≡ 2 * (i * 2 ^ (suc n - 1))
power-suc i n = rw (sub-two n, sub-one n) (omega (arith, ap (λ (t : ℕ). i * t) (pow-suc 2 n)))

-- The first bound is the initial one, and each further bound doubles the one before, up to the cap.
pub delay_base-doubles :
    (s : RetrySettings) (p : RetryPolicy) (n : ℕ)
    → let cap = or_else p.backoff_max s.backoff_max_default in
      (delay_base s p 1 ≡ min cap (or_else p.backoff s.backoff_default))
      × (delay_base s p (suc (suc n)) ≡ min cap (2 * delay_base s p (suc n)))
unfolding delay_base
delay_base-doubles s p n =
    (omega arith, omega (arith, power-suc (or_else p.backoff s.backoff_default) n))
