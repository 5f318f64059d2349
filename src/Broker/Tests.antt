-- ===== src/Broker/Tests.antt =====
-- The theorems on the paper broker and the quote book, applied to an option quoted at 100.00 to 100.05.
use native.Mathlib.Nat.{mul-div_cancel}
use algo_trading.Common.{ℕ, ◌*◌, ◌/◌, ◌<◌, ◌≡◌, refl, true, false, none, some, List, [], ◌∷◌, arith}
use algo_trading.Common.Int.{pos}
use algo_trading.Common.Dict.{lookup}
use algo_trading.Models.{paper, buy, market, limit, allowed, Tick, ok}
use algo_trading.Store.Rows.{OrderIntent}
use algo_trading.Store.Intents.{Order}
use algo_trading.Broker.{Quote, has_depth, accepted, refused}
use algo_trading.Broker.Costs.{CostRates}
use algo_trading.Broker.Quotes.{QuoteBook}
use algo_trading.Broker.Rules.{no_rules, ticks, PaperFillConfig, duplicate_correlation_id}
use algo_trading.Broker.Pricing.{
  priced, amount, round_to_tick, tick_for, moved_price, base_of, extra_of, method_of, rounded,
  market_price,
}
use algo_trading.Broker.Pricing.Market.{IsPricing, market_price-IsPricing}
use algo_trading.Broker.Checks.{
  check_intent, check_quantity, check_limit_price, check_freshness, check_session, check_depth,
  check_rules, rules_for, is_listed,
}
use algo_trading.Broker.Fills.{Setup, fill_quantities, positives, sum_of}
use algo_trading.Broker.Paper.{PaperBroker, select_quote, submit, count_refusal}
use algo_trading.Broker.Paper.Accepting.{Passes, submit-IsFilledOrder}
use algo_trading.Broker.Paper.Outcomes.{IsOutcome, submit-IsOutcome}
use algo_trading.Broker.Matching.{on_quote}
use algo_trading.Broker.Matching.Resting.{AllResting, IsPass, on_quote-IsPass}
use algo_trading.Broker.Matching.Calls.{
  Call, submission, quotation, run, run-AllResting, submit-submit_refused,
}

abbrev divide : ℕ → ℕ → ℕ
divide a b = a / b

exact : (a b : ℕ) → 0 < b → divide (a * b) b ≡ a
exact a b h = mul-div_cancel a h

abbrev config : PaperFillConfig
config = record {
  slippage = record {
    mode = ticks;
    market_order_ticks = 10000;
    market_order_points = 500;
    market_order_bps = 2;
  };
  submission_latency_ms = 250;
  max_quote_age_ms = none;
  tick_size = some 500;
  allow_ltp_fallback = true;
  ltp_fallback_extra_ticks = 10000;
  reject_when_market_closed = false;
  reject_correlation_ids = [];
}

abbrev rates : CostRates
rates = record {
  brokerage_per_order = 200000;
  exchange_charge_rate = 350300;
  stt_rate_on_sell = 625000;
  sebi_charge_rate = 1000;
  gst_rate = 180000000;
  stamp_duty_rate_on_buy = 30000;
}

-- Every order is split into its first unit and the others.
abbrev setup : Setup
setup = record {
  config = config;
  rates = rates;
  instrument_rules = none;
  is_market_open = none;
  fill_quantity_policy = λ i q. pos 1 ∷ pos 9 ∷ [];
}

abbrev quote : Quote
quote = record {
  security_id = 5;
  last_price = 1000200;
  quoted_at = 1000000;
  bid = some 1000000;
  ask = some 1000500;
}

abbrev intent : OrderIntent
intent = record {
  correlation_id = 21;
  strategy_id = 1;
  runtime_id = 9;
  execution_mode = paper;
  trading_date = 20;
  sequence_number = 1;
  instrument = 50;
  security_id = 5;
  side = buy;
  quantity = 10;
  order_type = market;
  product_type = 0;
  created_at = 1000000;
  limit_price = none;
  trigger_price = none;
  signal_id = some 1;
  basket_id = none;
  leg_id = none;
  config_fingerprint = none;
  risk_decision = allowed;
  risk_reason = none;
}

abbrev resting_intent : OrderIntent
resting_intent = record intent {
  order_type = limit;
  limit_price = some 1000500;
  correlation_id = 22;
}

abbrev start : PaperBroker
start = record {
  orders = [];
  working = [];
  fill_sequence = 1;
  latency_not_applied = 0;
  rejections = [];
  quotes = none;
}

passes : Passes divide setup exact 1000100 intent quote start no_rules
unfolding check_intent check_rules
passes = record {
  intent = unfold lookup is_listed in refl;
  known = unfold rules_for in refl;
  order =
      unfold check_quantity check_limit_price check_freshness check_session check_depth has_depth in
      refl;
}

found : market_price divide config buy quote no_rules ≡ priced 1001000 1
unfolding market_price amount tick_for base_of extra_of method_of rounded round_to_tick moved_price
    has_depth
found = refl

split : fill_quantities divide setup intent quote ≡ ok (1 ∷ 9 ∷ [])
unfolding fill_quantities positives sum_of
split = refl

submit-IsOutcome_example : IsOutcome start 21 (submit divide setup 1000100 intent quote start)
submit-IsOutcome_example = submit-IsOutcome divide setup 1000100 intent quote start

market_price-IsPricing_example :
    IsPricing config buy quote 500 (market_price divide config buy quote no_rules)
market_price-IsPricing_example =
    market_price-IsPricing divide config buy quote no_rules 500 (unfold tick_for in refl)
      (omega arith)

start-AllResting : AllResting start
unfolding AllResting lookup
start-AllResting id w found = absurd (ground (arith, found))

abbrev calls : List Call
calls =
    submission 1000100 none resting_intent quote
    ∷ quotation 1300000 (record quote { quoted_at = 1260000; ask = some 1000300 })
    ∷ []

run-AllResting_example : AllResting (run divide setup exact calls start)
run-AllResting_example = run-AllResting divide setup exact calls start start-AllResting

on_quote-IsPass_example :
    let later : Quote = record quote { quoted_at = 1260000; ask = some 1000300 } in
    IsPass divide setup 1300000 later
      (run divide setup exact (submission 1000100 none resting_intent quote ∷ []) start)
      (on_quote divide setup 1300000 later
        (run divide setup exact (submission 1000100 none resting_intent quote ∷ []) start))
on_quote-IsPass_example =
    let rests = submission 1000100 none resting_intent quote ∷ [] in
    on_quote-IsPass divide setup exact 1300000
      (record quote { quoted_at = 1260000; ask = some 1000300 })
      (run divide setup exact rests start)
      (run-AllResting divide setup exact rests start start-AllResting)

accepted_first : (o : Order) × ((submit divide setup 1000100 intent quote start).0 ≡ accepted o)
unfolding select_quote
accepted_first =
    let made =
      submit-IsFilledOrder divide setup exact 1000100 intent quote start no_rules 1001000 1
        (1 ∷ 9 ∷ []) passes refl found (omega arith) split in
    (made.0, made.1.0)

submit-submit_refused_example :
    let after = run divide setup exact calls (submit divide setup 1000100 intent quote start).1 in
    submit divide setup 1400000 (record intent { quantity = 3 }) quote after
    ≡ (refused 8, count_refusal duplicate_correlation_id after)
submit-submit_refused_example =
    submit-submit_refused divide setup exact 1000100 intent quote start accepted_first.0 calls
      1400000 (record intent { quantity = 3 }) quote start-AllResting accepted_first.1 refl

abbrev book : QuoteBook
book = record { depth = 2; quotes = []; recorded = 0 }

abbrev tick : Tick
tick = record {
  security_id = 5;
  instrument = 50;
  last_price = 1000200;
  exchange_time = 1000000;
  received_at = 1000010;
  last_quantity = 25;
  bid_price = some 1000000;
  ask_price = none;
}
