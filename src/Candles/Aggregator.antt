-- ===== src/Candles/Aggregator.antt =====
-- class CandleAggregator of common/candles/aggregator.py, the hub's aggregation of ticks. A method
-- returns its result beside the new state, also when it raises, since what was written stays.
pub mod Live
pub mod Adds
pub mod Once
pub mod Bars
pub mod Summary
use algo_trading.Common.{
  ℕ, ◌+◌, ◌*◌, min, max, Bool, true, false, ◌&&◌, ◌||◌, Option, none, some, List, [], ◌∷◌, ◌++◌,
  ltb, ◌==◌, if◌then◌else◌, map, not,
}
use algo_trading.Common.Dict.{Dict, lookup, insert, erase}
use algo_trading.Models.{Tick, Candle, new_candle, Result, ok, err, runtime_error}
use algo_trading.Candles.Interval.{SessionWindow, contains, floor_to_interval, second}

-- `_Bar`
pub record Bar : Type 0 where
  pub security_id : ℕ
  pub instrument : ℕ
  pub start_at : ℕ
  pub end_at : ℕ
  pub open_price : ℕ
  pub high : ℕ
  pub low : ℕ
  pub close : ℕ
  pub volume : ℕ
  pub tick_count : ℕ
  pub last_tick_at : Option ℕ
  pub spans_feed_gap : Bool

unfoldable pub absorb : Bar → Tick → Bar
absorb b t = record b {
  high = max b.high t.last_price;
  low = min b.low t.last_price;
  close = t.last_price;
  volume = b.volume + t.last_quantity;
  tick_count = b.tick_count + 1;
  last_tick_at = some t.exchange_time;
}

unfoldable pub freeze : Bar → Result Candle
unfolding new_candle
freeze b = new_candle (record {
  security_id = b.security_id;
  instrument = b.instrument;
  open_price = b.open_price;
  high = b.high;
  low = b.low;
  close = b.close;
  volume = b.volume;
  start_at = b.start_at;
  end_at = b.end_at;
  tick_count = b.tick_count;
  last_tick_at = b.last_tick_at;
  spans_gap = false;
})

pub record Aggregator : Type 0 where
  pub interval_seconds : ℕ
  pub session : SessionWindow
  pub open_bars : Dict Bar
  pub published : List (ℕ × ℕ)
  pub rejected_out_of_session : ℕ
  pub rejected_late : ℕ
  pub dropped_gap_candles : ℕ

-- `key in self._published`
unfoldable pub is_published : ℕ → ℕ → List (ℕ × ℕ) → Bool
is_published k t [] = false
is_published k t ((j, u) ∷ rest) = (k == j && t == u) || is_published k t rest

unfoldable pub new_bar : Tick → ℕ → ℕ → Bar
new_bar t start finish = record {
  security_id = t.security_id;
  instrument = t.instrument;
  start_at = start;
  end_at = finish;
  open_price = t.last_price;
  high = t.last_price;
  low = t.last_price;
  close = t.last_price;
  volume = t.last_quantity;
  tick_count = 1;
  last_tick_at = some t.exchange_time;
  spans_feed_gap = false;
}

frozen : Result Candle → Result (Option Candle)
frozen (ok c) = ok (some c)
frozen (err e) = err e

-- `_complete`
unfoldable pub complete : Bar → Aggregator → Result (Option Candle) × Aggregator
unfolding frozen is_published
complete b a =
    let a' = record a { published = (b.security_id, b.start_at) ∷ a.published } in
    if is_published b.security_id b.start_at a.published
    then (err runtime_error, a)
    else if b.spans_feed_gap
    then (ok none, record a' { dropped_gap_candles = a'.dropped_gap_candles + 1 })
    else (frozen (freeze b), a')

-- The end of `add`, after the old bar was completed: a raise leaves the open bars alone.
replace_bar :
    Tick → ℕ → ℕ → Result (Option Candle) × Aggregator → Result (Option Candle) × Aggregator
unfolding new_bar insert
replace_bar t start finish (ok c, a) =
    (ok c, record a { open_bars = insert t.security_id (new_bar t start finish) a.open_bars })
replace_bar t start finish (err e, a) = (err e, a)

-- The part of `add` that looks at the bar of the tick's instrument.
pub add_to : Tick → ℕ → Aggregator → Option Bar → Result (Option Candle) × Aggregator
unfolding replace_bar complete absorb
add_to t start a none = (
  ok none,
  record a {
    open_bars =
        insert t.security_id (new_bar t start (start + a.interval_seconds * second)) a.open_bars;
  },
)
add_to t start a (some current) =
    if start == current.start_at
    then (ok none, record a { open_bars = insert t.security_id (absorb current t) a.open_bars })
    else if ltb start current.start_at
    then (ok none, record a { rejected_late = a.rejected_late + 1 })
    else replace_bar t start (start + a.interval_seconds * second) (complete current a)

add_at : Tick → Aggregator → Result ℕ → Result (Option Candle) × Aggregator
unfolding add_to lookup
add_at t a (ok start) = add_to t start a (lookup t.security_id a.open_bars)
add_at t a (err e) = (err e, a)

unfoldable pub add : Aggregator → Tick → Result (Option Candle) × Aggregator
unfolding add_at contains floor_to_interval
add a t =
    if not (contains a.session t.exchange_time)
    then (ok none, record a { rejected_out_of_session = a.rejected_out_of_session + 1 })
    else add_at t a (floor_to_interval (a.session.zone t.exchange_time) a.interval_seconds)

-- `[security_id] if security_id is not None else list(self._open_bars)`
chosen_keys : Option ℕ → Dict Bar → List ℕ
chosen_keys (some k) bars = k ∷ []
chosen_keys none bars = map (λ e. e.0) bars

mark_bar : ℕ → ℕ × Dict Bar → Option Bar → ℕ × Dict Bar
mark_bar k (n, bars) none = (n, bars)
mark_bar k (n, bars) (some b) = (n + 1, insert k (record b { spans_feed_gap = true }) bars)

mark_keys : List ℕ → ℕ × Dict Bar → ℕ × Dict Bar
unfolding mark_bar
mark_keys [] s = s
mark_keys (k ∷ ks) (n, bars) = mark_keys ks (mark_bar k (n, bars) (lookup k bars))

unfoldable pub mark_feed_gap : Aggregator → Option ℕ → ℕ × Aggregator
unfolding chosen_keys mark_keys
mark_feed_gap a security_id =
    let (n, bars) = mark_keys (chosen_keys security_id a.open_bars) (0, a.open_bars) in
    (n, record a { open_bars = bars })

-- What a run of `flush` has yielded, the raise that ended it if any, and the state.
pub record Flushed : Type 0 where
  pub yielded : List Candle
  pub ended : Result (Unit {0})
  pub after : Aggregator

-- One round of the loop of `flush`, up to its `yield`.
pop_bar : ℕ → Aggregator → Option Bar → Result (Option Candle) × Aggregator
unfolding complete erase
pop_bar k a none = (ok none, a)
pop_bar k a (some b) = complete b (record a { open_bars = erase k a.open_bars })

prepend : Option Candle → Flushed → Flushed
prepend none f = f
prepend (some c) f = record f { yielded = c ∷ f.yielded }

-- A round's candle is yielded before those of the rounds that `rest` runs; a raise ends the loop.
go_on : (Aggregator → Flushed) → Result (Option Candle) × Aggregator → Flushed
unfolding prepend
go_on rest (ok c, a) = prepend c (rest a)
go_on rest (err e, a) = record { yielded = []; ended = err e; after = a }

flush_keys : List ℕ → Aggregator → Flushed
unfolding pop_bar go_on
flush_keys [] a = record { yielded = []; ended = ok tt; after = a }
flush_keys (k ∷ ks) a = go_on (flush_keys ks) (pop_bar k a (lookup k a.open_bars))

unfoldable pub flush : Aggregator → Option ℕ → Flushed
unfolding chosen_keys flush_keys
flush a security_id = flush_keys (chosen_keys security_id a.open_bars) a
