-- ===== src/Exits/Engines.antt =====
-- The engines that a CompositeExit is built of: the modelled exits under the interface of BaseExit.
-- The supertrend exit, which reads an indicator, and the time exit are no members.
mod Tests
use algo_trading.Common.{ℕ, Bool, false, Option, none, some, ◌&&◌, ◌==◌, if◌then◌else◌}
use algo_trading.Common.Int.{ℤ}
use algo_trading.Models.{is_ce, Candle}
use algo_trading.Engine.Trades.{OpenPosition}
use algo_trading.Exits.{
  stop_loss_hit, target_reached, Trailing, reset, snapshot, restore, should_exit,
}
use algo_trading.Exits.Closes.{
  Basis, momentum_low_exit, PriceStream, momentum_close_exit, HighestClose, reset_trail,
  snapshot_trail, restore_trail, should_trail, Reversal, reset_reversal, should_reverse,
}
use algo_trading.Exits.Composite.{Engine}

pub data Exit : Type 0 where
  stoploss : ℤ → Exit
  fixed_target : ℤ → Exit
  momentum_close : PriceStream → Exit
  momentum_low_of : Basis → Exit
  highest_close : HighestClose → Exit
  consecutive_reversal : Reversal → Exit
  trailing : Trailing → Exit

-- What `should_exit` is given: the position, the closed candle and the last of the history.
pub record Shown : Type 0 where
  pub position : OpenPosition
  pub candle : Candle
  pub previous : Option Candle

pub data Saved : Type 0 where
  saved_extreme : ℕ × Bool → Saved
  saved_streak : ℕ → Option ℕ → Saved
  saved_peak : ℤ → Saved

-- The numbers that stand for the labels.
label_of : Exit → ℕ
label_of (stoploss _) = 10
label_of (fixed_target _) = 20
label_of (momentum_close _) = 30
label_of (momentum_low_of _) = 40
label_of (highest_close _) = 50
label_of (consecutive_reversal _) = 60
label_of (trailing _) = 80

reset_exit : Exit → Exit
unfolding reset_trail reset_reversal reset
reset_exit (highest_close e) = highest_close (reset_trail e)
reset_exit (consecutive_reversal e) = consecutive_reversal (reset_reversal e)
reset_exit (trailing e) = trailing (reset e)
reset_exit e = e

saved_as {ℓ} : {A : Type ℓ} → (A → Saved) → Option A → Option Saved
saved_as f none = none
saved_as f (some a) = some (f a)

is_untouched : ℕ → Option ℕ → Bool
is_untouched streak none = streak == 0
is_untouched streak (some close) = false

snapshot_exit : Exit → Option Saved
unfolding saved_as is_untouched snapshot_trail snapshot
snapshot_exit (highest_close e) = saved_as saved_extreme (snapshot_trail e)
snapshot_exit (consecutive_reversal e) =
    if is_untouched e.streak e.prev_close then none else some (saved_streak e.streak e.prev_close)
snapshot_exit (trailing e) = saved_as saved_peak (snapshot e)
snapshot_exit e = none

prev_or : Option ℕ → Option ℕ → Option ℕ
prev_or none old = old
prev_or (some close) old = some close

-- A snapshot of another engine is not read.
restore_exit : Saved → Exit → Exit
unfolding prev_or restore_trail restore
restore_exit (saved_extreme x) (highest_close e) = highest_close (restore_trail (some x) e)
restore_exit (saved_streak streak prev) (consecutive_reversal e) =
    consecutive_reversal (record e { streak = streak; prev_close = prev_or prev e.prev_close })
restore_exit (saved_peak peak) (trailing e) = trailing (restore (some peak) e)
restore_exit s e = e

answer_as {ℓ} : {A : Type ℓ} → (A → Exit) → Bool × A → Bool × Exit
answer_as f (fired, a) = (fired, f a)

ask_exit : Shown → Exit → Bool × Exit
unfolding answer_as stop_loss_hit target_reached momentum_close_exit momentum_low_exit should_trail
    should_reverse should_exit
ask_exit s (stoploss n) = (stop_loss_hit n s.position, stoploss n)
ask_exit s (fixed_target n) = (target_reached n s.position, fixed_target n)
ask_exit s (momentum_close stream) =
    (momentum_close_exit stream s.position s.candle s.previous, momentum_close stream)
ask_exit s (momentum_low_of basis) =
    (momentum_low_exit basis s.position s.candle s.previous, momentum_low_of basis)
ask_exit s (highest_close e) = answer_as highest_close (should_trail s.position s.candle e)
ask_exit s (consecutive_reversal e) =
    answer_as consecutive_reversal
      (should_reverse (is_ce s.position.contract.option_type) s.candle.close e)
ask_exit s (trailing e) = answer_as trailing (should_exit s.position e)

unfoldable pub exits : Engine Shown Exit Saved
unfolding label_of reset_exit snapshot_exit restore_exit ask_exit
exits = record {
  label = label_of;
  reset = reset_exit;
  snapshot = snapshot_exit;
  restore = restore_exit;
  should_exit = ask_exit;
}
