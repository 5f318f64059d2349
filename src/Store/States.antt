-- ===== src/Store/States.antt =====
-- `load_strategy_state`, `save_strategy_state` and `_touch_strategy_state`. A payload is the number
-- of its text.
use algo_trading.Common.{ℕ, ◌+◌, Bool, false, Option, none, some, or_else, if◌then◌else◌}
use algo_trading.Common.Int.{ℤ, pos, ◌+ℤ◌}
use algo_trading.Common.Table.{find, put}
use algo_trading.Risk.SquareOff.{SquareOffState, pending}
use algo_trading.Store.Rows.{Day, same_day, StateRow, Database}
use algo_trading.Store.Positions.{coalesce}

abbrev pub current_state_version : ℕ
current_state_version = 1

unfoldable pub load_strategy_state : Day → Database → Option StateRow
load_strategy_state day db = find same_day day db.states

unfoldable pub touched : ℕ → ℕ → Option ℕ → ℤ → Option StateRow → StateRow
touched now runtime_id last_candle_end_at realised_delta none = record {
  runtime_id = runtime_id;
  state_version = 1;
  last_candle_end_at = last_candle_end_at;
  daily_realised_pnl = realised_delta;
  entries_blocked = false;
  square_off_state = some pending;
  square_off_attempts = 0;
  payload = none;
  updated_at = now;
}
touched now runtime_id last_candle_end_at realised_delta (some row) = record row {
  last_candle_end_at = coalesce last_candle_end_at row.last_candle_end_at;
  daily_realised_pnl = row.daily_realised_pnl +ℤ realised_delta;
  updated_at = now;
}

unfoldable pub touch_strategy_state : ℕ → ℕ → Day → Option ℕ → ℤ → Database → Database
unfolding touched
touch_strategy_state now runtime_id day last_candle_end_at realised_delta db = record db {
  states =
      put same_day day
        (touched now runtime_id last_candle_end_at realised_delta (find same_day day db.states))
        db.states;
}

-- What `save_strategy_state` is given; an argument left out is `none`.
pub record Save : Type 0 where
  pub last_candle_end_at : Option ℕ
  pub square_off_state : Option SquareOffState
  pub entries_blocked : Option Bool
  pub payload : Option ℕ
  pub increment_square_off_attempts : Bool

abbrev attempts : Save → ℕ
attempts s = if s.increment_square_off_attempts then 1 else 0

unfoldable pub saved : ℕ → ℕ → Save → Option StateRow → StateRow
saved now runtime_id s none = record {
  runtime_id = runtime_id;
  state_version = current_state_version;
  last_candle_end_at = s.last_candle_end_at;
  daily_realised_pnl = pos 0;
  entries_blocked = or_else s.entries_blocked false;
  square_off_state = some (or_else s.square_off_state pending);
  square_off_attempts = attempts s;
  payload = s.payload;
  updated_at = now;
}
saved now runtime_id s (some row) = record row {
  state_version = current_state_version;
  last_candle_end_at = coalesce s.last_candle_end_at row.last_candle_end_at;
  entries_blocked = or_else s.entries_blocked row.entries_blocked;
  square_off_state = elim s.square_off_state [ none ↦ row.square_off_state | some x ↦ some x ];
  square_off_attempts = row.square_off_attempts + attempts s;
  payload = coalesce s.payload row.payload;
  updated_at = now;
}

unfoldable pub save_strategy_state : ℕ → ℕ → Day → Save → Database → Database
unfolding saved
save_strategy_state now runtime_id day s db = record db {
  states = put same_day day (saved now runtime_id s (find same_day day db.states)) db.states;
}
