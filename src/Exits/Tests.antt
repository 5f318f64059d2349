-- ===== src/Exits/Tests.antt =====
-- The theorems on the trailing stop, applied to a rise and a fall.
use algo_trading.Common.{◌≡◌, ◌↔◌, true, [], ◌∷◌}
use algo_trading.Common.Int.{pos, negsuc, ◌-ℤ◌, ◌≤ℤ◌, ◌<ℤ◌, max_ℤ}
use algo_trading.Exits.{Trailing, reset, should_exit_at}
use algo_trading.Exits.Peak.{shown, highest, should_exit_at-highest}

abbrev risen : Trailing
risen = record { trail_points = pos 20; peak_profit = pos 35 }

should_exit_at-highest_example :
    let peak = max_ℤ (highest (pos 0) (pos 5 ∷ pos 40 ∷ negsuc 3 ∷ [])) (pos 18) in
    ((should_exit_at (pos 18) (shown (pos 5 ∷ pos 40 ∷ negsuc 3 ∷ []) (reset risen))).0 ≡ true)
    ↔ ((pos 0 <ℤ peak) × (pos 20 ≤ℤ (peak -ℤ pos 18)))
should_exit_at-highest_example =
    should_exit_at-highest risen (pos 5 ∷ pos 40 ∷ negsuc 3 ∷ []) (pos 18)
