-- ===== src/Feed/Fanout/Tests.antt =====
-- The theorems on the hub, applied to two workers of which one wants the instrument 5.
use algo_trading.Common.{ℕ, ◌≡◌, refl, true, none, some, List, [], ◌∷◌, arith}
use algo_trading.Common.Dict.{lookup}
use algo_trading.Models.{Tick, ok}
use algo_trading.Candles.Aggregator.{Aggregator, is_published}
use algo_trading.Feed.Hub.{SubscriptionRequest, WorkerChannel, Hub, is_registered, apply_one}
use algo_trading.Feed.Hub.Subscriptions.{is_routed, apply_one_idem}
use algo_trading.Feed.Fanout.{Pace, fan_out_tick, on_tick}
use algo_trading.Feed.Fanout.Routing.{AllRouted, fan_out_tick-AllRouted}
use algo_trading.Feed.Fanout.Totality.{IsSound, on_tick-IsSound}

abbrev minutes : Aggregator
minutes = record {
  interval_seconds = 60;
  session = record { start = 0; finish = 86400000000; zone = λ t. t };
  open_bars = [];
  published = [];
  rejected_out_of_session = 0;
  rejected_late = 0;
  dropped_gap_candles = 0;
}

abbrev worker : ℕ → List ℕ → WorkerChannel
worker strategy_id security_ids = record {
  strategy_id = strategy_id;
  security_ids = security_ids;
  queue = record {
    max_depth = 2;
    items = [];
    published = 0;
    dropped = 0;
    last_published_at = none;
  };
  tick_queue =
      some (record {
        max_depth = 2;
        items = [];
        published = 0;
        dropped = 0;
        last_published_at = none;
      });
  dynamic_ids = [];
}

abbrev hub : Hub
hub = record {
  new_aggregator = minutes;
  channels = worker 1 (5 ∷ []) ∷ worker 2 (6 ∷ []) ∷ [];
  aggregators = [];
  pending = record { strategy_id = 2; security_id = 5; segment = some 2; mode = some 17 } ∷ [];
  last_drop_notice = [];
  subscribed = (5, none, none) ∷ (6, none, none) ∷ [];
  tick_count = 0;
  candle_count = 0;
  ticks_published = 0;
  gap_candles_discarded = 0;
  subscriptions_applied = 0;
  last_tick_at = none;
}

abbrev idle : Pace
idle name attempt = (0, 0)

abbrev tick : Tick
tick = record {
  security_id = 5;
  instrument = 50;
  last_price = 100;
  exchange_time = 130000000;
  received_at = 130000010;
  last_quantity = 25;
  bid_price = none;
  ask_price = none;
}

hub-IsSound : IsSound hub
unfolding IsSound lookup is_published
hub-IsSound = (
  record {
    positive = omega arith;
    live = record {
      bars_ok = λ k b e. absurd (ground (arith, e));
      behind = λ k t e. absurd (ground (arith, e));
    };
  },
  λ k a e. absurd (ground (arith, e)),
)

on_tick-IsSound_example :
    ((on_tick idle 1 tick hub).0 ≡ ok tt) × IsSound (on_tick idle 1 tick hub).1
on_tick-IsSound_example = on_tick-IsSound idle 1 tick hub hub-IsSound

fan_out_tick-AllRouted_example :
    AllRouted idle 1 tick hub.channels (fan_out_tick idle 1 tick hub).channels
fan_out_tick-AllRouted_example = fan_out_tick-AllRouted idle 1 tick hub

registered : is_registered 2 hub.channels ≡ true
unfolding is_registered
registered = refl

-- The contract with the mode and the segment of the options.
abbrev request : SubscriptionRequest
request = record { strategy_id = 2; security_id = 5; segment = some 2; mode = some 17 }

apply_one_idem_example :
    let after = apply_one request hub in
    (is_routed 2 5 after.channels ≡ true)
    × (apply_one (record request { segment = none; mode = none }) after ≡ after)
apply_one_idem_example = apply_one_idem request none none hub registered
