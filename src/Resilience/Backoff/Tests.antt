-- ===== src/Resilience/Backoff/Tests.antt =====
-- Runs of the backoff (resilience.py).
use uyuni_ai.Common.{ℕ, ◌+◌, ◌*◌, ◌-◌, ◌≤◌, ◌≡◌, ◌↔◌, refl, arith}
use uyuni_ai.Common.Result.{ok, err}
use uyuni_ai.Resilience.Backoff.{
  ExponentialBackoff, overflow, float_of_int, base, jittered, delay, IsValid, delay_bounds,
  delay_defined_iff,
}

-- from 2 up to 300 units, with a jitter of a fifth
abbrev salt_backoff : ExponentialBackoff
salt_backoff = record { initial = 2; maximum = 300; jitter = 200 }

salt_backoff-IsValid : IsValid salt_backoff
salt_backoff-IsValid = record {
  initial_pos = omega arith;
  ordered = omega arith;
  ratio = omega arith;
}

third_delay : delay 3 250 salt_backoff ≡ ok 7200000
unfolding delay float_of_int jittered
third_delay = refl

delay_bounds_example :
    (d : ℕ) × (delay 3 250 salt_backoff ≡ ok d)
    × (d ≤ 300 * 1000000)
    × (base (3 - 1) salt_backoff * 1000000 ≤ d + base (3 - 1) salt_backoff * 200 * 1000)
    × (d ≤ base (3 - 1) salt_backoff * 1000000 + base (3 - 1) salt_backoff * 200 * 1000)
delay_bounds_example =
    delay_bounds 3 250 salt_backoff salt_backoff-IsValid (omega arith) (omega arith)

delay_defined_iff_example :
    (((d : ℕ) × (delay 1025 250 salt_backoff ≡ ok d)) ↔ (1025 ≤ 1024))
    × ((delay 1025 250 salt_backoff ≡ err overflow) ↔ (1025 ≤ 1025))
delay_defined_iff_example =
    delay_defined_iff 1025 250 salt_backoff salt_backoff-IsValid (omega arith)
