-- ===== src/Context/Meter.antt =====
-- The estimate of tokens (context/meter.go), for the ratio of 4 that every Meter has: `NewMeter` sets
-- it and `Estimate` falls back on it.
use awesome_go_agents.Base.{ℕ, ◌+◌, ◌*◌, ◌<◌, ◌≤◌, ◌/◌, ◌%◌, ◌==◌, if◌then◌else◌, arith, length}
use awesome_go_agents.Context.Pruner.{Text}

unfoldable pub estimate_runes : ℕ → ℕ
estimate_runes n = if n == 0 then 0 else (n / 4) + (if (n % 4) == 0 then 0 else 1) + 1

unfoldable pub estimate : Text → ℕ
unfolding estimate_runes
estimate text = estimate_runes (length text)

-- The estimate of a text that is not empty is one more than a quarter of its code points, rounded
-- up.
pub estimate_runes-bounds :
    (n : ℕ) → 0 < n → (n + 4 ≤ 4 * estimate_runes n) × (4 * estimate_runes n < n + 8)
unfolding estimate_runes
estimate_runes-bounds n h = (ground arith, ground arith)
