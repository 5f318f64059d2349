-- ===== src/Broker/Fills.antt =====
-- The fills of an order of common/broker/paper.py. Parameters are what the source is given: the
-- charges, the instrument master, the market's hours and the policy that splits an order into fills.
pub mod Amounts
use algo_trading.Common.{
  ℕ, ◌+◌, ◌-◌, ◌*◌, max, min, Bool, Option, none, some, List, [], ◌∷◌, leb, ltb, ◌==◌,
  if◌then◌else◌,
}
use algo_trading.Common.Int.{ℤ, pos, negsuc}
use algo_trading.Models.{Fill, filled, partially_filled, Error, Result, ok, err, value_error}
use algo_trading.Store.Rows.{OrderIntent}
use algo_trading.Store.Intents.{Order}
use algo_trading.Broker.{Quote}
use algo_trading.Broker.Costs.{CostRates, CostBreakdown, total, for_leg}
use algo_trading.Broker.Rules.{InstrumentRules, PaperFillConfig}
use algo_trading.Broker.Checks.{age}

pub record Setup : Type 0 where
  pub config : PaperFillConfig
  pub rates : CostRates
  pub instrument_rules : Option (ℕ → Option InstrumentRules)
  pub is_market_open : Option (ℕ → Bool)
  pub fill_quantity_policy : OrderIntent → Quote → List ℤ

positive_with : ℕ → Option (List ℕ) → Option (List ℕ)
positive_with n none = none
positive_with n (some ns) = if n == 0 then none else some (n ∷ ns)

-- The quantities as positive numbers, if all of them are.
unfoldable pub positives : List ℤ → Option (List ℕ)
unfolding positive_with
positives [] = some []
positives (pos n ∷ zs) = positive_with n (positives zs)
positives (negsuc n ∷ zs) = none

unfoldable pub sum_of : List ℕ → ℕ
sum_of [] = 0
sum_of (n ∷ ns) = n + sum_of ns

bounded : ℕ → Option (List ℕ) → Result (List ℕ)
unfolding sum_of
bounded most none = err value_error
bounded most (some []) = err value_error
bounded most (some (n ∷ ns)) = if ltb most (sum_of (n ∷ ns)) then err value_error else ok (n ∷ ns)

-- What the fills of an order share.
pub record Leg : Type 0 where
  pub intent : OrderIntent
  pub quote : Quote
  pub price : ℕ
  pub method : ℕ
  pub latency_applied : Bool
  pub reference_price : ℕ
  pub filled_at : ℕ

unfoldable pub filled_quantity_of : List Fill → ℕ
filled_quantity_of [] = 0
filled_quantity_of (f ∷ fs) = f.quantity + filled_quantity_of fs

unfoldable pub turnover_of : List Fill → ℕ
turnover_of [] = 0
turnover_of (f ∷ fs) = f.price * f.quantity + turnover_of fs

module _ (divide : ℕ → ℕ → ℕ) (s : Setup) where
  unfoldable pub fill_quantities : OrderIntent → Quote → Result (List ℕ)
  unfolding bounded positives
  fill_quantities i q = bounded i.quantity (positives (s.fill_quantity_policy i q))

  unfoldable pub fill_of : Leg → ℕ → ℕ → CostBreakdown → Fill
  unfolding total age
  fill_of l n quantity c = record {
    correlation_id = l.intent.correlation_id;
    broker_fill_id = n;
    strategy_id = l.intent.strategy_id;
    execution_mode = l.intent.execution_mode;
    quantity = quantity;
    price = l.price;
    filled_at = l.filled_at;
    reference_price = some l.reference_price;
    slippage_amount = some (max l.price l.reference_price - min l.price l.reference_price);
    latency_ms = some s.config.submission_latency_ms;
    fill_method = some l.method;
    charges = pos (total c);
    latency_applied = some l.latency_applied;
    quote_bid = l.quote.bid;
    quote_ask = l.quote.ask;
    quote_age_ms = age l.filled_at l.quote;
  }

  followed : Leg → ℕ → ℕ → Result CostBreakdown → Result (List Fill) × ℕ → Result (List Fill) × ℕ
  unfolding fill_of
  followed l n quantity (err e) rest = (err e, n + 1)
  followed l n quantity (ok c) (err e, m) = (err e, m)
  followed l n quantity (ok c) (ok fs, m) = (ok (fill_of l n quantity c ∷ fs), m)

  -- The fills of these quantities, numbered from the next number on, which follows them.
  unfoldable pub fills_from : Leg → ℕ → List ℕ → Result (List Fill) × ℕ
  unfolding followed for_leg
  fills_from l n [] = (ok [], n)
  fills_from l n (quantity ∷ quantities) =
      let rest = fills_from l (n + 1) quantities in
      followed l n quantity (for_leg divide s.rates l.intent.side l.price quantity) rest

  unfoldable pub numbered : Leg → ℕ → Result (List ℕ) → Result (List Fill) × ℕ
  unfolding fills_from
  numbered l n (err e) = (err e, n)
  numbered l n (ok quantities) = fills_from l n quantities

  unfoldable pub make_fills : Leg → ℕ → Result (List Fill) × ℕ
  unfolding numbered
  make_fills l n = numbered l n (fill_quantities l.intent l.quote)

  -- An order of at least one fill, all of the same moment.
  unfoldable pub build_order : OrderIntent → ℕ → List Fill → Order
  unfolding filled_quantity_of turnover_of
  build_order i now fills =
      let quantity = filled_quantity_of fills in
      record {
        correlation_id = i.correlation_id;
        strategy_id = i.strategy_id;
        execution_mode = i.execution_mode;
        status = if leb i.quantity quantity then filled else partially_filled;
        updated_at = now;
        broker_order_id = some i.correlation_id;
        filled_quantity = quantity;
        average_fill_price = some (divide (turnover_of fills) quantity);
        rejection_reason = none;
        fills = fills;
      }
