-- ===== src/Jobs/Backoff.antt =====
-- `nextBackoffMs`: the window from which the delay is drawn.
use native.Mathlib.Nat.{div-lt_iff_lt-mul, mul-lt-mul_of_pos_right, mul_comm, pow-le-pow_right}
use mathlib.Core.Path.{subst}
use ticket_booking_system.Common.{ℕ, zero, suc, ◌<◌, ◌≤◌, ◌^◌, ◌*◌, arith}
use ticket_booking_system.Jobs.{next_backoff_ms, exponential, capped_exponential}

one_le_pow : (n : ℕ) → 1 ≤ 2 ^ n
one_le_pow n = pow-le-pow_right {n = 2} (omega arith) {i = 0} {j = n} (omega arith)

exponential_pos : (attempts : ℕ) → 0 < exponential attempts
exponential_pos zero = omega arith
exponential_pos (suc n) = omega (arith, one_le_pow n)

exponential_mono : (attempts : ℕ) → exponential attempts ≤ exponential (suc attempts)
exponential_mono zero = omega arith
exponential_mono (suc n) =
    omega (arith, pow-le-pow_right {n = 2} (omega arith) {i = n} {j = suc n} (omega arith))

-- For a draw in the unit interval the delay is less than the window of the attempt; the window is at
-- most a minute, and that of the next attempt is no shorter.
pub next_backoff_ms_bounds :
    (draw attempts : ℕ)
    → draw < 2 ^ 53
    → (next_backoff_ms draw attempts < capped_exponential attempts)
      × (capped_exponential attempts ≤ 60000)
      × (capped_exponential attempts ≤ capped_exponential (suc attempts))
unfolding next_backoff_ms
next_backoff_ms_bounds draw attempts h = (
  (div-lt_iff_lt-mul (omega arith)).1 (
      subst (λ n. draw * capped_exponential attempts < n)
        (mul_comm (2 ^ 53) (capped_exponential attempts))
        (mul-lt-mul_of_pos_right h (omega (arith, exponential_pos attempts)))),
  omega arith,
  omega (arith, exponential_mono attempts),
)
