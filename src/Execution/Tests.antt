-- ===== src/Execution/Tests.antt =====
-- The theorems on the order lifecycle, applied to a paper broker that fills at the quote.
use algo_trading.Common.{ℕ, ◌+◌, ◌/◌, ◌≡◌, ◌⊎◌, refl, false, none, some, [], ◌∷◌}
use algo_trading.Common.Int.{pos}
use algo_trading.Models.{paper, buy, filled, Candle, Mode, Result, ok}
use algo_trading.Store.Rows.{Database}
use algo_trading.Store.Intents.{Signal, is_signalled}
use algo_trading.Broker.{accepted, Broker}
use algo_trading.Execution.Lifecycle.{duplicate_signal, OrderLifecycle, Request, handle_signal}
use algo_trading.Execution.Lifecycle.Once.{handle_signal-once}
use algo_trading.Execution.Lifecycle.Submitting.{IsHeld, IsSent, handle_signal-IsSent}

abbrev divide : ℕ → ℕ → ℕ
divide a b = a / b

abbrev empty : Database
empty = record {
  signals = [];
  intents = [];
  errors = [];
  orders = [];
  fills = [];
  fill_quotes = [];
  positions = [];
  states = [];
}

-- It counts the orders, and fills each at the last price of the quote.
abbrev at_quote : Broker ℕ
at_quote = record {
  submit = λ i quote n. (
    accepted (record {
      correlation_id = i.correlation_id;
      strategy_id = i.strategy_id;
      execution_mode = i.execution_mode;
      status = filled;
      updated_at = 1000;
      broker_order_id = some n;
      filled_quantity = i.quantity;
      average_fill_price = some quote.last_price;
      rejection_reason = none;
      fills =
          record {
            correlation_id = i.correlation_id;
            broker_fill_id = n;
            strategy_id = i.strategy_id;
            execution_mode = i.execution_mode;
            quantity = i.quantity;
            price = quote.last_price;
            filled_at = 1000;
            reference_price = none;
            slippage_amount = none;
            latency_ms = none;
            fill_method = none;
            charges = pos 20;
            latency_applied = none;
            quote_bid = none;
            quote_ask = none;
            quote_age_ms = none;
          }
          ∷ [];
    }),
    n + 1,
  );
}

abbrev correlate : Mode → ℕ → ℕ → ℕ → ℕ → Result ℕ
correlate mode runtime_id strategy_id date sequence = ok (date + sequence)

abbrev lifecycle : OrderLifecycle
lifecycle = record {
  runtime_id = 9;
  strategy_id = 1;
  execution_mode = paper;
  session_id = 1;
  product_type = 0;
  config_fingerprint = none;
}

abbrev candle : Candle
candle = record {
  security_id = 5;
  instrument = 50;
  open_price = 100;
  high = 103;
  low = 99;
  close = 101;
  volume = 30;
  start_at = 60000000;
  end_at = 120000000;
  tick_count = 3;
  last_tick_at = none;
  spans_gap = false;
}

abbrev signal : Signal
signal = record {
  strategy_id = 1;
  execution_mode = paper;
  instrument = 50;
  security_id = 5;
  side = buy;
  quantity = 10;
  candle = candle;
  reference_price = 101;
  evaluated_at = 120000001;
  reason = 0;
}

abbrev request : Request
request = record {
  now = 120000002;
  reported = 0;
  signal = signal;
  trading_date = 20;
  stop_price = none;
  target_price = none;
}

-- The same candle, later, with another reference price.
abbrev again : Request
again = record request { now = 130000000; signal = record signal { reference_price = 102 } }

handle_signal-once_example :
    let (first, db1, b1) = handle_signal divide at_quote correlate none lifecycle request empty 0 in
    handle_signal divide at_quote correlate none lifecycle again db1 b1 ≡ (
      ok (record {
        correlation_id = none;
        order = none;
        position = none;
        skipped_reason = some duplicate_signal;
      }),
      db1,
      b1,
    )
handle_signal-once_example =
    handle_signal-once divide at_quote correlate none lifecycle lifecycle request again empty 0
      (record { strategy = refl; mode = refl; instrument = refl; candle = refl })

handle_signal-IsSent_example :
    let r = handle_signal divide at_quote correlate none lifecycle request empty 0 in
    ((r.2 ≡ 0) × IsHeld divide at_quote correlate none lifecycle request empty)
    ⊎ ((is_signalled signal [] ≡ false)
        × IsSent divide at_quote correlate none lifecycle request [] r.1 0 r.2)
handle_signal-IsSent_example =
    handle_signal-IsSent divide at_quote correlate none lifecycle request empty 0
