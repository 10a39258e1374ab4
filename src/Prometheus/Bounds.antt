-- ===== src/Prometheus/Bounds.antt =====
-- The percentages that the code computes from two readings (uyuni_ai_agent/prometheus_client.py).
use native.Mathlib.Nat.{div-mul-le_self, lt-div-mul-add, div-le_of_le-mul}
use uyuni_ai.Common.{
  ℕ, zero, suc, ◌+◌, ◌-◌, ◌*◌, ◌/◌, ◌≤◌, ◌<◌, min, ◌≡◌, Option, none, some, String, arith,
}
use uyuni_ai.Common.Int.{ℤ, pos, negsuc}
use uyuni_ai.Prometheus.Readings.{Reads}
use uyuni_ai.Prometheus.{Client, MetricReading}
use uyuni_ai.Prometheus.Memory.{MemoryPressure, memory_query, usable_value}

-- p thousandths of a percent are the share of a part in a whole, rounded down
abbrev pub IsShare : ℕ → ℕ → ℕ → Type 0
IsShare p part whole = (p * whole ≤ part * 100000) × (part * 100000 < (p + 1) * whole)

pub share_lem : (part whole : ℕ) → IsShare (part * 100000 / suc whole) part (suc whole)
share_lem part whole = (
  div-mul-le_self (part * 100000) (suc whole),
  omega (arith, lt-div-mul-add {a = part * 100000} {b = suc whole} (omega arith)),
)

pub share_bound : (part whole : ℕ) → part ≤ suc whole → part * 100000 / suc whole ≤ 100000
share_bound part whole h = div-le_of_le-mul (suc whole) (omega arith)

-- the memory's usage, by what is known
abbrev pub MemoryUsage : Option ℤ → Option ℤ → Option ℕ → Type 0
MemoryUsage (some (pos available)) (some (pos (suc total))) usage =
    (p : ℕ) × (usage ≡ some p)
    × (p ≤ 100000)
    × IsShare (100000 - p) (min available (suc total)) (suc total)
MemoryUsage (some (negsuc _)) (some (pos (suc total))) usage = usage ≡ some 100000
MemoryUsage _ _ usage = usage ≡ none

-- what is used of the swap, and its usage, by the total and what is free
abbrev pub SwapUsage : Option ℤ → Option ℤ → Option ℕ → Option ℕ → Type 0
SwapUsage (some (pos (suc total))) (some (pos free)) used usage =
    (used ≡ some (suc total - free))
    × ((p : ℕ) × (usage ≡ some p) × (p ≤ 100000) × IsShare p (suc total - free) (suc total))
SwapUsage (some (pos (suc total))) (some (negsuc free)) used usage =
    (used ≡ some (suc total + suc free)) × (usage ≡ some 100000)
SwapUsage (some (pos zero)) (some free) used usage = usage ≡ some 0
SwapUsage (some (negsuc total)) (some free) used usage = usage ≡ some 0
SwapUsage _ _ used usage = (used ≡ none) × (usage ≡ none)

-- the two usages of a snapshot, by the four readings that they come of
abbrev pub UsagesOf :
    MetricReading ℤ → MetricReading ℤ → MetricReading ℤ → MetricReading ℤ → MemoryPressure → Type 0
UsagesOf available total swap_total swap_free m =
    MemoryUsage (usable_value available) (usable_value total) m.memory_usage_percent
    × SwapUsage (usable_value swap_total) (usable_value swap_free) m.swap_used_bytes
        m.swap_usage_percent

-- readings of the four queries of the memory and the swap, and the usages that come of them
abbrev pub Usages : String → Client → Option ℕ → MemoryPressure → Type 0
Usages instance client max_age m =
    (available : MetricReading ℤ) × (total : MetricReading ℤ) × (swap_total : MetricReading ℤ)
    × (swap_free : MetricReading ℤ) × Reads client
        (memory_query "node_memory_MemAvailable_bytes{" "}" instance) max_age available
    × Reads client (memory_query "node_memory_MemTotal_bytes{" "}" instance) max_age total
    × Reads client (memory_query "node_memory_SwapTotal_bytes{" "}" instance) max_age swap_total
    × Reads client (memory_query "node_memory_SwapFree_bytes{" "}" instance) max_age swap_free
    × UsagesOf available total swap_total swap_free m
