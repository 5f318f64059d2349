-- ===== src/Candles/Tests.antt =====
-- The theorems on the aggregator and the builder, applied to ticks of one-minute intervals.
use algo_trading.Common.{ℕ, ◌+◌, ◌*◌, ◌<◌, ◌≡◌, refl, true, false, none, some, List, [], ◌∷◌, arith}
use algo_trading.Common.Int.{pos}
use algo_trading.Common.Dict.{lookup}
use algo_trading.Models.{Tick, Candle, ok}
use algo_trading.Candles.Interval.{midnight, second, floored, SessionWindow, contains}
use algo_trading.Candles.Aggregator.{Aggregator, add, is_published}
use algo_trading.Candles.Aggregator.Live.{IsLive}
use algo_trading.Candles.Aggregator.Bars.{InBucket, adds}
use algo_trading.Candles.Aggregator.Once.{Call, run, Distinct, run-Distinct}
use algo_trading.Candles.Aggregator.Summary.{Summary, add-Summary}
use algo_trading.Candles.Builder.{Bar, Builder, add as build}
use algo_trading.Candles.Builder.Bars.{IsBar}
use algo_trading.Candles.Builder.Summary.{Given, adds as adds_given}
use algo_trading.Candles.Builder.Gaps.{mark_of, late_tick_marks}

abbrev whole_day : SessionWindow
whole_day = record { start = 0; finish = 86400000000; zone = λ t. t }

abbrev minutes : Aggregator
minutes = record {
  interval_seconds = 60;
  session = whole_day;
  open_bars = [];
  published = [];
  rejected_out_of_session = 0;
  rejected_late = 0;
  dropped_gap_candles = 0;
}

-- A tick of the instrument 5 at a second of the day.
abbrev at : ℕ → ℕ → Tick
at time price = record {
  security_id = 5;
  instrument = 50;
  last_price = price;
  exchange_time = time * 1000000;
  received_at = time * 1000000;
  last_quantity = 10;
  bid_price = none;
  ask_price = none;
}

-- Two ticks of one minute, one of the next, a mark, a flush, and the first again.
abbrev calls : List Call
calls =
    Call.adds (at 130 100)
    ∷ Call.adds (at 140 103)
    ∷ Call.adds (at 190 101)
    ∷ Call.marks none
    ∷ Call.flushes none
    ∷ Call.adds (at 130 100)
    ∷ []

run-Distinct_example : Distinct (run calls minutes).0
run-Distinct_example = run-Distinct calls minutes

minutes-IsLive : IsLive minutes
unfolding lookup is_published
minutes-IsLive = record {
  positive = omega arith;
  live = record {
    bars_ok = λ k b e. absurd (ground (arith, e));
    behind = λ k t e. absurd (ground (arith, e));
  };
}

InBucket-130 : InBucket whole_day 60 5 120000000 (at 130 100)
unfolding contains floored midnight
InBucket-130 = record { traded = refl; keyed = refl; bucket = refl }

InBucket-140 : InBucket whole_day 60 5 120000000 (at 140 103)
unfolding contains floored midnight
InBucket-140 = record { traded = refl; keyed = refl; bucket = refl }

InBucket-190 : InBucket whole_day 60 5 180000000 (at 190 101)
unfolding contains floored midnight
InBucket-190 = record { traded = refl; keyed = refl; bucket = refl }

no_bar : lookup 5 minutes.open_bars ≡ none
unfolding lookup
no_bar = refl

unpublished : is_published 5 120000000 minutes.published ≡ false
unfolding is_published
unpublished = refl

add-Summary_example :
    (c : Candle) × ((add (adds (at 130 100 ∷ at 140 103 ∷ []) minutes) (at 190 101)).0
      ≡ ok (some c))
    × (c.start_at ≡ 120000000)
    × Summary (120000000 + 60 * second) (at 130 100) (at 140 103 ∷ []) c
add-Summary_example =
    add-Summary minutes 5 120000000 (at 130 100) (at 140 103 ∷ []) (omega arith) no_bar
      (InBucket-130, (InBucket-140, tt)) (at 190 101) 180000000 (omega arith) unpublished
      InBucket-190

-- The open bar of the second minute, whose last tick is at the given second.
abbrev open_bar : ℕ → Bar
open_bar last = record {
  start_at = 120000000;
  open_price = 100;
  high = 103;
  low = 99;
  close = 101;
  volume = 30;
  tick_count = 3;
  last_tick_at = last * 1000000;
  spans_gap = false;
}

abbrev one_minute : ℕ → Builder
one_minute last = record {
  interval = 1;
  security_id = 5;
  instrument = 50;
  current = some (open_bar last);
}

open_bar-IsBar : (last : ℕ) → IsBar (open_bar last)
open_bar-IsBar last = record {
  open_above = omega arith;
  open_below = omega arith;
  close_above = omega arith;
  close_below = omega arith;
}

-- A one-minute builder that has no open bar.
abbrev fresh : Builder
fresh = record { interval = 1; security_id = 5; instrument = 50; current = none }

abbrev given : ℕ → ℕ → Given
given seconds price = record { price = price; ts = seconds * 1000000; volume = 10 }

bucket_150 : floored 150000000 60 ≡ 120000000
unfolding floored midnight
bucket_150 = refl

bucket_190 : floored 190000000 60 ≡ 180000000
unfolding floored midnight
bucket_190 = refl

next_later : 120000000 < floored 190000000 60
next_later = rw bucket_190 (omega arith)

early_50 : floored 50000000 60 < 120000000
unfolding floored midnight
early_50 = omega arith

late_tick_marks_example : mark_of (build (one_minute 50) 104 190000000 (pos 10)) ≡ true
late_tick_marks_example =
    late_tick_marks (one_minute 50) 104 190000000 10 (open_bar 50) (omega arith) refl
      (open_bar-IsBar 50) next_later refl early_50 bucket_190
