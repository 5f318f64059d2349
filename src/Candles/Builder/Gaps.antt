-- ===== src/Candles/Builder/Gaps.antt =====
-- When the builder marks a candle as built across a hole in the ticks.
use algo_trading.Common.{ℕ, ◌+◌, ◌*◌, ◌<◌, ◌≡◌, Bool, true, false, Option, none, some, arith, ◌↔◌}
use algo_trading.Common.Int.{pos}
use algo_trading.Models.{Candle, Result, ok, err}
use algo_trading.Candles.Interval.{floored}
use algo_trading.Candles.Builder.{Bar, Builder, span, is_gapped, roll, add_to, add}
use algo_trading.Candles.Builder.Bars.{IsBar, freeze_total, add-add_to, marked, marked-IsBar}

-- The mark on the candle that a tick of a later interval closes.
unfoldable pub mark_of : Result (Option Candle) × Builder → Bool
mark_of (ok (some c), b) = c.spans_gap
mark_of (ok none, b) = false
mark_of (err e, b) = false

module _ (b : Builder) (price ts volume : ℕ) (bar : Bar) (i : 0 < b.interval)
    (e : b.current ≡ some bar) (h : IsBar bar) (later : bar.start_at < floored ts (b.interval * 60))
    (clean : bar.spans_gap ≡ false) where
  closed_to :
      mark_of (add_to b (floored ts (b.interval * 60)) price ts volume (some bar))
      ≡ is_gapped b (floored ts (b.interval * 60)) bar
  unfolding add_to roll mark_of
  closed_to =
      let bucket = floored ts (b.interval * 60) in
      ground (arith, freeze_total b (marked b bucket bar) i (marked-IsBar b bucket bar h))

  closed_mark :
      mark_of (add b price ts (pos volume)) ≡ is_gapped b (floored ts (b.interval * 60)) bar
  closed_mark = rw (add-add_to b price ts volume i) (simp e closed_to)

  -- For a positive interval, an open bar that encloses its prices and is not marked, and a tick of a
  -- later interval: where the last tick of the bar fell in its own interval, the candle is marked
  -- exactly if a whole interval without a tick lies between the bar and the tick that closes it.
  pub mark_exact :
      floored bar.last_tick_at (b.interval * 60) ≡ bar.start_at
      → (mark_of (add b price ts (pos volume)) ≡ true)
        ↔ (bar.start_at + span b < floored ts (b.interval * 60))
  unfolding is_gapped
  mark_exact own = rw closed_mark (ground arith)

  -- With the same bar and tick, where the last tick of the bar was a late one, of an earlier interval
  -- than the bar's, the candle is marked even if the tick that closes it is of the very next
  -- interval, so that nothing is missing.
  pub late_tick_marks :
      floored bar.last_tick_at (b.interval * 60) < bar.start_at
      → floored ts (b.interval * 60) ≡ bar.start_at + span b
      → mark_of (add b price ts (pos volume)) ≡ true
  unfolding is_gapped
  late_tick_marks early next = rw closed_mark (ground arith)
