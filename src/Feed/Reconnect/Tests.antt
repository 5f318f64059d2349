-- ===== src/Feed/Reconnect/Tests.antt =====
-- The theorems on the reconnecting feed, applied to a feed that fails.
use algo_trading.Common.{
  ◌*◌, ◌<◌, ◌≤◌, ◌≡◌, ◌≢◌, refl, true, false, none, some, [], ◌∷◌, arith, inl,
}
use algo_trading.Common.Int.{pos}
use algo_trading.Models.{Tick, ok}
use algo_trading.Feed.Reconnect.{
  ReconnectPolicy, Fraction, delay_for, ReconnectingFeed, ticked, raised, Session, unavailable, run,
}
use algo_trading.Feed.Reconnect.Attempts.{IsSilent, run_gives_up}
use algo_trading.Feed.Reconnect.Ticks.{IsTracked, run_delivering}
use algo_trading.Feed.Reconnect.Delivered.{all_ticks, made, run-delivered}
use algo_trading.Feed.Reconnect.Delays.{delay_for_bounds}

abbrev policy : ReconnectPolicy
policy = record {
  max_attempts = 2;
  initial_backoff = 1000000;
  max_backoff = 60000000;
  multiplier = 2000;
  jitter_ratio = 250;
}

abbrev fresh : ReconnectingFeed
fresh = record {
  health = record {
    connected = false;
    degraded = true;
    reconnect_count = 0;
    failed_attempts = 0;
    token_refreshes = 0;
    last_disconnect_code = none;
    last_connected_at = none;
    last_disconnected_at = none;
    total_downtime = pos 0;
    expected_subscriptions = 1;
    active_subscriptions = 1;
    last_tick_at = [];
    gap_candles_discarded = 0;
  };
  security_ids = 5 ∷ [];
  stopped = false;
  closed = false;
  consecutive_failures = 0;
  delivered = [];
  events = [];
}

abbrev tick : Tick
tick = record {
  security_id = 5;
  instrument = 50;
  last_price = 100;
  exchange_time = 1000000;
  received_at = 1000010;
  last_quantity = 25;
  bid_price = none;
  ask_price = none;
}

abbrev silent : Session
silent = record {
  connected_at = 10;
  beats = [];
  ending = raised;
  disconnected_at = 20;
  code = some 807;
  gap = some 1;
  refresh = some true;
  stopped_asleep = false;
  subscribed = 1;
}

abbrev short : Session
short = record silent { beats = ticked tick ∷ [] }

silent-IsSilent : IsSilent silent
silent-IsSilent = record { no_beats = refl; failed = refl; awake = refl }

run_gives_up_example :
    let (progress, g) = run policy (silent ∷ silent ∷ short ∷ []) fresh in
    (progress ≡ unavailable) × (g.health.failed_attempts ≡ 2)
run_gives_up_example =
    run_gives_up policy (silent ∷ silent ∷ []) (short ∷ []) fresh
      (silent-IsSilent, (silent-IsSilent, tt)) refl (omega arith) refl

fresh-IsTracked : IsTracked fresh
unfolding IsTracked
fresh-IsTracked = inl refl

run_delivering_example : (run policy (short ∷ short ∷ short ∷ []) fresh).0 ≢ unavailable
run_delivering_example =
    run_delivering policy (short ∷ short ∷ short ∷ []) fresh (tt, (tt, (tt, tt))) fresh-IsTracked
      (omega arith)

run-delivered_example :
    (run policy (short ∷ short ∷ []) fresh).1.delivered
    ≡ all_ticks (made policy (short ∷ short ∷ []) fresh)
run-delivered_example = run-delivered policy (short ∷ short ∷ []) fresh

delay_for_bounds_example :
    (d : Fraction) × (delay_for policy 3 500 ≡ ok d)
    × (0 < d.numerator)
    × (d.numerator ≤ 60000000 * d.denominator)
delay_for_bounds_example =
    delay_for_bounds policy 2 500 (omega arith) (omega arith) (omega arith) (omega arith)
      (omega arith)
