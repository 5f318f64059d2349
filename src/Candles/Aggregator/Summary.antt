-- ===== src/Candles/Aggregator/Summary.antt =====
-- The candle that is published is the summary of the ticks of its interval.
use algo_trading.Common.{
  ℕ, ◌+◌, ◌*◌, ◌<◌, ◌≡◌, refl, ◌∙◌, false, Option, none, some, List, [], ◌∷◌, arith, length, All,
}
use algo_trading.Common.Dict.{lookup, insert, lookup-insert}
use algo_trading.Models.{Tick, Candle, Result, ok, err}
use algo_trading.Candles.Interval.{second}
use algo_trading.Candles.Aggregator.{
  Bar, Aggregator, absorb, frozen, is_published, new_bar, complete, replace_bar, add_to, add,
}
use algo_trading.Candles.Aggregator.Live.{
  IsBar, candle_of, freeze_total, new_bar-IsBar, absorb-IsBar,
}
use algo_trading.Candles.Aggregator.Bars.{
  InBucket, adds, absorbs, prices, highest, lowest, last_of, traded_quantity, Holds, add-add_to,
  add_first, adds_same, absorbs-Sums,
}

-- The candle of the interval at `start` for the ticks `t ∷ ts`.
abbrev pub Summary : ℕ → Tick → List Tick → Candle → Type 0
Summary finish t ts c =
    (c.security_id ≡ t.security_id)
    × (c.open_price ≡ t.last_price)
    × (c.high ≡ highest t.last_price (prices ts))
    × (c.low ≡ lowest t.last_price (prices ts))
    × (c.close ≡ last_of t.last_price (prices ts))
    × (c.volume ≡ traded_quantity (t ∷ ts))
    × (c.tick_count ≡ length (t ∷ ts))
    × (c.end_at ≡ finish)

absorbs-IsBar : (k : ℕ) (ts : List Tick) (b : Bar) → IsBar k b → IsBar k (absorbs ts b)
unfolding absorbs
absorbs-IsBar k [] b h = h
absorbs-IsBar k (t ∷ ts) b h = absorbs-IsBar k ts (absorb b t) (absorb-IsBar k b t h)

complete_open :
    (k : ℕ) (b : Bar) (a : Aggregator)
    → IsBar k b
    → is_published k b.start_at a.published ≡ false
    → b.spans_feed_gap ≡ false
    → (complete b a).0 ≡ ok (some (candle_of b))
unfolding complete frozen
complete_open k b a h new whole = simp (h.keyed, new, whole, freeze_total k b h)

replace_bar_result :
    (t : Tick) (i j : ℕ) (r : Result (Option Candle) × Aggregator) → (replace_bar t i j r).0 ≡ r.0
unfolding replace_bar
replace_bar_result t i j (ok c, a) = refl
replace_bar_result t i j (err e, a) = refl

add_to_later :
    (start : ℕ) (u : Tick) (b : Bar) (a : Aggregator)
    → b.start_at < start
    → (add_to u start a (some b)).0 ≡ (complete b a).0
unfolding add_to
add_to_later start u b a lt =
    ground (arith, replace_bar_result u start (start + a.interval_seconds * second) (complete b a))

-- A tick of a later interval publishes the open bar.
add_later :
    (k start : ℕ) (u : Tick) (b : Bar) (a : Aggregator)
    → 0 < a.interval_seconds
    → InBucket a.session a.interval_seconds k start u
    → lookup k a.open_bars ≡ some b
    → b.start_at < start
    → IsBar k b
    → is_published k b.start_at a.published ≡ false
    → b.spans_feed_gap ≡ false
    → (add a u).0 ≡ ok (some (candle_of b))
add_later k start u b a i h e lt ib new whole =
    rw (add-add_to k start u a i h, e)
      (add_to_later start u b a lt ∙ complete_open k b a ib new whole)

module _ (a : Aggregator) (k start : ℕ) (t : Tick) (ts : List Tick) (i : 0 < a.interval_seconds)
    (closed : lookup k a.open_bars ≡ none)
    (h : All (InBucket a.session a.interval_seconds k start) (t ∷ ts)) where
  abbrev first_bar : Bar
  first_bar = new_bar t start (start + a.interval_seconds * second)

  first-IsBar : IsBar k first_bar
  first-IsBar = rw (← h.0.keyed) (new_bar-IsBar t start _ (ground arith))

  -- The state after the first tick.
  abbrev opened : Aggregator
  opened = record a { open_bars = insert t.security_id first_bar a.open_bars }

  opened-Holds : Holds opened k (absorbs ts first_bar) (adds (t ∷ ts) a)
  unfolding adds new_bar
  opened-Holds = rw (add_first k start t a i h.0 closed) (
      adds_same k start ts opened first_bar i h.1
        (ground (arith, lookup-insert k t.security_id first_bar a.open_bars, h.0.keyed)) refl)

  module _ (u : Tick) (next : ℕ) (later : start < next)
      (new : is_published k start a.published ≡ false)
      (hu : InBucket a.session a.interval_seconds k next u) where
    published : (add (adds (t ∷ ts) a) u).0 ≡ ok (some (candle_of (absorbs ts first_bar)))
    unfolding new_bar
    published =
        let o = opened-Holds in
        let sums = absorbs-Sums ts first_bar in
        add_later k next u (absorbs ts first_bar) (adds (t ∷ ts) a) (rw o.interval i)
          (rw (o.session, o.interval) hu) o.found (rw sums.start later)
          (absorbs-IsBar k ts first_bar first-IsBar) (rw (sums.start, o.recorded) new) sums.gap

    -- From a state with a positive interval and no open bar for the instrument, where the interval
    -- was not published before, in-session ticks of the instrument in the interval and then one in
    -- a later interval publish a candle, and it is the summary of the ticks of the interval: the
    -- first price, the highest, the lowest and the last, the quantity traded and the number of
    -- ticks.
    pub add-Summary :
        (c : Candle) × ((add (adds (t ∷ ts) a) u).0 ≡ ok (some c))
        × (c.start_at ≡ start)
        × Summary (start + a.interval_seconds * second) t ts c
    unfolding new_bar traded_quantity
    add-Summary =
        let sums = absorbs-Sums ts first_bar in
        (
          candle_of (absorbs ts first_bar),
          published,
          sums.start,
          (
            sums.keyed,
            sums.opened,
            sums.high,
            sums.low,
            sums.closed,
            sums.volume,
            omega (arith, sums.count),
            sums.finish,
          ),
        )
