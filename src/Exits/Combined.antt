-- ===== src/Exits/Combined.antt =====
-- CombinedCandleExit of common/exit/combined_candle_exit.py. The label and the reason's text follow
-- the exit reason.
pub mod Restart
use algo_trading.Common.{
  ℕ, max, min, Bool, true, false, ◌&&◌, ◌||◌, Option, none, some, if◌then◌else◌,
}
use algo_trading.Common.Int.{ℤ}
use algo_trading.Models.{
  is_buy, ExitReason, momentum_low, momentum_high, highest_close_trail, lowest_close_trail,
  momentum_and_trail, strategy_exit, Candle,
}
use algo_trading.Engine.Trades.{OpenPosition}
use algo_trading.Exits.Closes.{
  by_side, momentum_low_exit, percentage, HighestClose, reset_trail, snapshot_trail, restore_trail,
  should_trail,
}

pub record Combined : Type 0 where
  pub trail : HighestClose
  pub momentum_fired : Bool
  pub trail_fired : Bool
  pub highest_close : Option ℕ
  pub lowest_close : Option ℕ
  pub suppress_momentum_once : Bool
  pub exit_reason : ExitReason

unfoldable pub new_combined : ℤ → Bool → ℤ → Combined
new_combined trail_percentage activation_enabled least = record {
  trail = record {
    basis = by_side;
    trail_type = percentage;
    trail_points = ℤ.pos 20;
    trail_percentage = trail_percentage;
    activation_enabled = activation_enabled;
    min_favourable_move_percentage = least;
    extreme = none;
    activated = false;
  };
  momentum_fired = false;
  trail_fired = false;
  highest_close = none;
  lowest_close = none;
  suppress_momentum_once = false;
  exit_reason = strategy_exit;
}

unfoldable pub reset_combined : Combined → Combined
unfolding reset_trail
reset_combined e = record e {
  trail = reset_trail e.trail;
  momentum_fired = false;
  trail_fired = false;
  highest_close = none;
  lowest_close = none;
  suppress_momentum_once = false;
}

unfoldable pub on_gap : Combined → Combined
on_gap e = record e { suppress_momentum_once = true }

pub record CombinedSnapshot : Type 0 where
  pub highest_close : Option ℕ
  pub lowest_close : Option ℕ
  pub trail : Option (ℕ × Bool)

unfoldable pub snapshot_combined : Combined → CombinedSnapshot
unfolding snapshot_trail
snapshot_combined e = record {
  highest_close = e.highest_close;
  lowest_close = e.lowest_close;
  trail = snapshot_trail e.trail;
}

or_kept : Option ℕ → Option ℕ → Option ℕ
or_kept (some x) old = some x
or_kept none old = old

unfoldable pub restore_combined : CombinedSnapshot → Combined → Combined
unfolding or_kept restore_trail
restore_combined s e = record e {
  highest_close = or_kept s.highest_close e.highest_close;
  lowest_close = or_kept s.lowest_close e.lowest_close;
  trail = restore_trail s.trail e.trail;
}

highest_with : Option ℕ → ℕ → ℕ
highest_with none close = close
highest_with (some x) close = max x close

lowest_with : Option ℕ → ℕ → ℕ
lowest_with none close = close
lowest_with (some x) close = min x close

-- The reason that the two rules give.
unfoldable pub reason_of : Bool → Bool → Bool → ExitReason → ExitReason
reason_of long momentum trail old =
    if momentum && trail
    then momentum_and_trail
    else if momentum
    then if long then momentum_low else momentum_high
    else if trail
    then if long then highest_close_trail else lowest_close_trail
    else old

unfoldable pub should_combined : OpenPosition → Candle → Option Candle → Combined → Bool × Combined
unfolding highest_with lowest_with reason_of
should_combined p c prev e =
    let momentum = if e.suppress_momentum_once then false else momentum_low_exit by_side p c prev in
    let (fired, trail) = should_trail p c e.trail in
    (
      momentum || fired,
      record {
        trail = trail;
        momentum_fired = momentum;
        trail_fired = fired;
        highest_close = some (highest_with e.highest_close c.close);
        lowest_close = some (lowest_with e.lowest_close c.close);
        suppress_momentum_once = false;
        exit_reason = reason_of (is_buy p.side) momentum fired e.exit_reason;
      },
    )
