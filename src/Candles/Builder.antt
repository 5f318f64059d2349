-- ===== src/Candles/Builder.antt =====
-- class CandleBuilder of common/candles/builder.py, the engine's aggregation of ticks. A volume is
-- a whole number here, so the `round` of `_freeze` changes nothing.
pub mod Bars
pub mod Gaps
pub mod Summary
use algo_trading.Common.{
  ℕ, ◌+◌, ◌*◌, min, max, Bool, true, false, ◌||◌, Option, none, some, ltb, ◌==◌, if◌then◌else◌,
}
use algo_trading.Common.Int.{ℤ, pos, pos_part, ltb_ℤ}
use algo_trading.Models.{Candle, new_candle, Result, ok, err, value_error}
use algo_trading.Candles.Interval.{floor_to_interval, floored, second}

-- `_Bar`
pub record Bar : Type 0 where
  pub start_at : ℕ
  pub open_price : ℕ
  pub high : ℕ
  pub low : ℕ
  pub close : ℕ
  pub volume : ℕ
  pub tick_count : ℕ
  pub last_tick_at : ℕ
  pub spans_gap : Bool

unfoldable pub absorb : Bar → ℕ → ℕ → ℕ → Bar
absorb b price ts volume_delta = record b {
  high = max b.high price;
  low = min b.low price;
  close = price;
  volume = b.volume + volume_delta;
  tick_count = b.tick_count + 1;
  last_tick_at = ts;
}

pub record Builder : Type 0 where
  pub interval : ℕ
  pub security_id : ℕ
  pub instrument : ℕ
  pub current : Option Bar

-- `__init__`; the empty text is the number 0.
unfoldable pub new_builder : ℤ → ℕ → ℕ → Result Builder
new_builder interval_minutes security_id instrument =
    if ltb_ℤ (pos 0) interval_minutes
    then ok (record {
      interval = pos_part interval_minutes;
      security_id = security_id;
      instrument = instrument;
      current = none;
    })
    else err value_error

-- `instrument or security_id`
pub or_security : ℕ → ℕ → ℕ
or_security instrument security_id = if instrument == 0 then security_id else instrument

unfoldable pub retarget : Builder → ℕ → ℕ → Builder
unfolding or_security
retarget b security_id instrument = record b {
  security_id = security_id;
  instrument = or_security instrument security_id;
  current = none;
}

unfoldable pub reset : Builder → Builder
reset b = record b { current = none }

unfoldable pub new_bar : ℕ → ℕ → ℕ → ℕ → Bar
new_bar start_at price ts volume = record {
  start_at = start_at;
  open_price = price;
  high = price;
  low = price;
  close = price;
  volume = volume;
  tick_count = 1;
  last_tick_at = ts;
  spans_gap = false;
}

-- `timedelta(minutes=self.interval)`
abbrev pub span : Builder → ℕ
span b = b.interval * 60 * second

unfoldable pub freeze : Builder → Bar → Result Candle
unfolding new_candle or_security
freeze b bar = new_candle (record {
  security_id = b.security_id;
  instrument = or_security b.instrument b.security_id;
  open_price = bar.open_price;
  high = bar.high;
  low = bar.low;
  close = bar.close;
  volume = bar.volume;
  start_at = bar.start_at;
  end_at = bar.start_at + span b;
  tick_count = bar.tick_count;
  last_tick_at = some bar.last_tick_at;
  spans_gap = bar.spans_gap;
})

-- `gapped`: more than one interval between the bucket and that of the last tick.
unfoldable pub is_gapped : Builder → ℕ → Bar → Bool
is_gapped b bucket bar = ltb (floored bar.last_tick_at (b.interval * 60) + span b) bucket

-- The frozen bar is returned and a new one opened; a raise leaves the old bar, marked.
roll : Builder → Bar → Bar → Result Candle → Result (Option Candle) × Builder
roll b marked next (ok c) = (ok (some c), record b { current = some next })
roll b marked next (err e) = (err e, record b { current = some marked })

pub add_to : Builder → ℕ → ℕ → ℕ → ℕ → Option Bar → Result (Option Candle) × Builder
unfolding new_bar absorb freeze is_gapped roll
add_to b bucket price ts volume none =
    (ok none, record b { current = some (new_bar bucket price ts volume) })
add_to b bucket price ts volume (some bar) =
    let marked = record bar { spans_gap = bar.spans_gap || is_gapped b bucket bar } in
    if ltb bar.start_at bucket
    then roll b marked (new_bar bucket price ts volume) (freeze b marked)
    else (ok none, record b { current = some (absorb bar price ts volume) })

add_at : Builder → ℕ → ℕ → ℕ → Result ℕ → Result (Option Candle) × Builder
unfolding add_to
add_at b price ts volume (ok bucket) = add_to b bucket price ts volume b.current
add_at b price ts volume (err e) = (err e, b)

unfoldable pub add : Builder → ℕ → ℕ → ℤ → Result (Option Candle) × Builder
unfolding add_at floor_to_interval
add b price ts volume_delta =
    if ltb_ℤ volume_delta (pos 0)
    then (err value_error, b)
    else add_at b price ts (pos_part volume_delta) (floor_to_interval ts (b.interval * 60))

flushed : Builder → Option Bar → Result (Option Candle) × Builder
unfolding freeze
flushed b none = (ok none, b)
flushed b (some bar) = (elim (freeze b bar) [ ok c ↦ ok (some c) | err e ↦ err e ], b)

unfoldable pub flush : Builder → Result (Option Candle) × Builder
unfolding flushed
flush b = flushed (record b { current = none }) b.current
