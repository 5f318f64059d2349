-- ===== src/Exits/Engines/Tests.antt =====
-- The theorems on the candle exits and their composite, applied to a bought call.
use algo_trading.Common.{
  ℕ, ◌≤◌, ◌≡◌, ◌↔◌, refl, true, false, none, some, [], ◌∷◌, map, is_some, inl,
}
use algo_trading.Common.Int.{pos}
use algo_trading.Models.{buy, ce, Candle, strategy_exit}
use algo_trading.Engine.Trades.{OpenPosition}
use algo_trading.Exits.Closes.{
  by_side, percentage, HighestClose, reset_trail, should_trail, Reversal, reset_reversal,
  should_reverse,
}
use algo_trading.Exits.Closes.Extremes.{after_candles, IsDue, should_trail-best_close}
use algo_trading.Exits.Closes.Best.{best_close, rises}
use algo_trading.Exits.Closes.Streaks.{after_closes, adverse_run, should_reverse-adverse_run}
use algo_trading.Exits.Combined.{Combined, snapshot_combined, should_combined}
use algo_trading.Exits.Combined.Restart.{Stale, IsConsistent, restarted, should_combined-restarted}
use algo_trading.Exits.Composite.{Composite, should_exit_any}
use algo_trading.Exits.Composite.Firing.{IsFirst, should_exit_any-IsFirst}
use algo_trading.Exits.Engines.{Exit, stoploss, highest_close, consecutive_reversal, Shown, exits}

abbrev held : OpenPosition
held = record {
  contract = record {
    symbol = 1;
    security_id = 5;
    strike = 25000;
    option_type = ce;
    expiry = 20;
    lot_size = 75;
  };
  side = buy;
  lots = 1;
  entry_price = 100;
  entry_time = 0;
  quantity = 75;
  last_price = 104;
  max_favorable_pnl = pos 0;
  max_adverse_pnl = pos 0;
}

abbrev candle : ℕ → Candle
candle close = record {
  security_id = 5;
  instrument = 50;
  open_price = 100;
  high = 130;
  low = 90;
  close = close;
  volume = 30;
  start_at = 0;
  end_at = 60000000;
  tick_count = 3;
  last_tick_at = none;
  spans_gap = false;
}

abbrev trail : HighestClose
trail = record {
  basis = by_side;
  trail_type = percentage;
  trail_points = pos 20;
  trail_percentage = pos 800;
  activation_enabled = false;
  min_favourable_move_percentage = pos 0;
  extreme = some 120;
  activated = false;
}

abbrev reversal : Reversal
reversal = record { reverse_candles = 2; streak = 0; prev_close = none }

abbrev combined : Combined
combined = record {
  trail = trail;
  momentum_fired = false;
  trail_fired = false;
  highest_close = some 120;
  lowest_close = some 101;
  suppress_momentum_once = false;
  exit_reason = strategy_exit;
}

abbrev all_exits : Composite Exit
all_exits = record {
  engines = stoploss (pos 30) ∷ highest_close trail ∷ consecutive_reversal reversal ∷ [];
  last_fired = none;
}

should_trail-best_close_example :
    let e = after_candles held (candle 121 ∷ candle 115 ∷ []) (reset_trail trail) in
    ((should_trail held (candle 104) e).0 ≡ true)
    ↔ IsDue percentage trail
        (rises by_side held)
        (best_close (rises by_side held) (candle 104) (candle 121 ∷ candle 115 ∷ []))
        104
should_trail-best_close_example =
    should_trail-best_close held (candle 104) (candle 121 ∷ candle 115 ∷ []) trail refl

should_reverse-adverse_run_example :
    ((should_reverse true 110 (after_closes true (115 ∷ 121 ∷ []) (reset_reversal reversal))).0
      ≡ true)
    ↔ (2 ≤ adverse_run true (110 ∷ 115 ∷ 121 ∷ []))
should_reverse-adverse_run_example = should_reverse-adverse_run true 110 (115 ∷ 121 ∷ []) reversal

trail-IsConsistent : IsConsistent trail
unfolding IsConsistent
trail-IsConsistent = inl refl

-- The exit of an earlier position.
abbrev stale : Stale
stale = record {
  extreme = some 90;
  activated = true;
  highest_close = some 95;
  lowest_close = some 80;
  suppress = true;
  reason = strategy_exit;
}

should_combined-restarted_example :
    let (fired, after) = should_combined held (candle 104) (some (candle 110)) combined in
    let (fired1, after1) = should_combined held (candle 104) none (restarted stale combined) in
    let (then_fired, then_after) = should_combined held (candle 101) (some (candle 104)) after in
    let (then_fired1, then_after1) = should_combined held (candle 101) (some (candle 104)) after1 in
    (after1.momentum_fired ≡ false)
    × (after1.trail_fired ≡ after.trail_fired)
    × (fired1 ≡ after.trail_fired)
    × (then_fired1 ≡ then_fired)
    × (then_after1.momentum_fired ≡ then_after.momentum_fired)
    × (then_after1.trail_fired ≡ then_after.trail_fired)
    × (snapshot_combined then_after1 ≡ snapshot_combined then_after)
should_combined-restarted_example =
    should_combined-restarted held (candle 104) (candle 101) (some (candle 110)) stale combined
      trail-IsConsistent

should_exit_any-IsFirst_example :
    let shown : Shown = record { position = held; candle = candle 104; previous = none } in
    let (answer, after) = should_exit_any exits shown all_exits in
    (answer ≡ is_some after.last_fired)
    × (after.engines ≡ map (λ e. (exits.should_exit shown e).1) all_exits.engines)
    × IsFirst exits shown all_exits.engines after.last_fired
should_exit_any-IsFirst_example =
    should_exit_any-IsFirst exits (record { position = held; candle = candle 104; previous = none })
      all_exits
