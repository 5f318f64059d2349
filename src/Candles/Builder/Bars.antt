-- ===== src/Candles/Builder/Bars.antt =====
-- The builder's open bar, and the candles that it becomes.
use algo_trading.Common.{ℕ, ◌+◌, ◌*◌, ◌≤◌, ◌<◌, ◌≡◌, ◌||◌, some, arith}
use algo_trading.Common.Int.{pos}
use algo_trading.Models.{Candle, ok}
use algo_trading.Candles.Interval.{floored, floor_to_interval-ok}
use algo_trading.Candles.Builder.{
  Bar, Builder, or_security, absorb, new_bar, span, freeze, is_gapped, add_to, add_at, add,
}

-- The open bar encloses its prices.
pub record IsBar (bar : Bar) : Type 0 where
  pub open_above : bar.low ≤ bar.open_price
  pub open_below : bar.open_price ≤ bar.high
  pub close_above : bar.low ≤ bar.close
  pub close_below : bar.close ≤ bar.high

-- The open bar as a tick of the interval at `bucket` finds it.
abbrev pub marked : Builder → ℕ → Bar → Bar
marked b bucket bar = record bar { spans_gap = bar.spans_gap || is_gapped b bucket bar }

pub marked-IsBar : (b : Builder) (bucket : ℕ) (bar : Bar) → IsBar bar → IsBar (marked b bucket bar)
marked-IsBar b bucket bar h = record {
  open_above = h.open_above;
  open_below = h.open_below;
  close_above = h.close_above;
  close_below = h.close_below;
}

abbrev pub candle_of : Builder → Bar → Candle
candle_of b bar = record {
  security_id = b.security_id;
  instrument = or_security b.instrument b.security_id;
  open_price = bar.open_price;
  high = bar.high;
  low = bar.low;
  close = bar.close;
  volume = bar.volume;
  start_at = bar.start_at;
  end_at = bar.start_at + span b;
  tick_count = bar.tick_count;
  last_tick_at = some bar.last_tick_at;
  spans_gap = bar.spans_gap;
}

pub freeze_total :
    (b : Builder) (bar : Bar) → 0 < b.interval → IsBar bar → freeze b bar ≡ ok (candle_of b bar)
unfolding freeze
freeze_total b bar i h = ground arith

pub add-add_to :
    (b : Builder) (price ts volume : ℕ)
    → 0 < b.interval
    → add b price ts (pos volume)
      ≡ add_to b (floored ts (b.interval * 60)) price ts volume b.current
unfolding add add_at
add-add_to b price ts volume i =
    rw (floor_to_interval-ok ts (b.interval * 60) (omega arith)) (ground arith)

pub new_bar-IsBar : (i price ts volume : ℕ) → IsBar (new_bar i price ts volume)
unfolding new_bar
new_bar-IsBar i price ts volume = omega arith

pub absorb-IsBar :
    (bar : Bar) (price ts volume : ℕ) → IsBar bar → IsBar (absorb bar price ts volume)
unfolding absorb
absorb-IsBar bar price ts volume h = omega arith
