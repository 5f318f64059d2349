-- ===== src/Execution/Lifecycle.antt =====
-- class OrderLifecycle of common/execution/lifecycle.py. The broker is a parameter: a state of its
-- own and `submit`. Parameters are also the correlation identifier that is built of an order's day
-- and sequence number, and the division that computes an average price.
pub mod Kept
pub mod Once
pub mod Submitting
use algo_trading.Common.{
  ℕ, Bool, true, false, Option, none, some, List, [], ◌∷◌, or_else, if◌then◌else◌,
}
use algo_trading.Models.{Mode, Fill, OrderStatus, rejected, market, allowed, Error, Result, ok, err}
use algo_trading.Store.Rows.{OrderIntent, ErrorRow, PositionRow, Database}
use algo_trading.Store.Intents.{
  Signal, Order, record_signal, next_sequence_number, reserve_intent, record_submission,
  record_error,
}
use algo_trading.Broker.{Quote, Submission, accepted, refused, failed, Broker}
use algo_trading.Broker.Quotes.{QuoteBook, latest_in}
use algo_trading.Store.Fills.{Apply, apply_fill}

pub data Skip : Type 0 where
  duplicate_signal : Skip
  broker_rejected : ℕ → Skip

pub record ExecutionResult : Type 0 where
  pub correlation_id : Option ℕ
  pub order : Option Order
  pub position : Option PositionRow
  pub skipped_reason : Option Skip

pub record OrderLifecycle : Type 0 where
  pub runtime_id : ℕ
  pub strategy_id : ℕ
  pub execution_mode : Mode
  pub session_id : ℕ
  pub product_type : ℕ
  pub config_fingerprint : Option ℕ

-- A call of `handle_signal`: the clock, the row that the cursor reports, and the arguments.
pub record Request : Type 0 where
  pub now : ℕ
  pub reported : ℕ
  pub signal : Signal
  pub trading_date : ℕ
  pub stop_price : Option ℕ
  pub target_price : Option ℕ

-- `_quote_for`
unfoldable pub quote_for : Option QuoteBook → Signal → Quote
unfolding latest_in
quote_for quotes s = or_else (latest_in quotes s.security_id) (record {
  security_id = s.security_id;
  last_price = s.reference_price;
  quoted_at = s.evaluated_at;
  bid = none;
  ask = none;
})

unfoldable pub intent_of : OrderLifecycle → Request → ℕ → ℕ → ℕ → OrderIntent
intent_of l q signal_id sequence correlation_id = record {
  correlation_id = correlation_id;
  strategy_id = l.strategy_id;
  runtime_id = l.runtime_id;
  execution_mode = l.execution_mode;
  trading_date = q.trading_date;
  sequence_number = sequence;
  instrument = q.signal.instrument;
  security_id = q.signal.security_id;
  side = q.signal.side;
  quantity = q.signal.quantity;
  order_type = market;
  product_type = l.product_type;
  created_at = q.now;
  limit_price = none;
  trigger_price = none;
  signal_id = some signal_id;
  basket_id = none;
  leg_id = none;
  config_fingerprint = l.config_fingerprint;
  risk_decision = allowed;
  risk_reason = none;
}

-- The order that stands for a submission the broker refused.
rejected_order : OrderLifecycle → Request → ℕ → ℕ → Order
rejected_order l q correlation_id reason = record {
  correlation_id = correlation_id;
  strategy_id = l.strategy_id;
  execution_mode = l.execution_mode;
  status = rejected;
  updated_at = q.now;
  broker_order_id = none;
  filled_quantity = 0;
  average_fill_price = none;
  rejection_reason = some reason;
  fills = [];
}

apply_of : OrderLifecycle → Request → ℕ → OrderStatus → Fill → Apply
apply_of l q order_id status fill = record {
  order_id = order_id;
  runtime_id = l.runtime_id;
  fill = fill;
  order_status = status;
  instrument = q.signal.instrument;
  security_id = q.signal.security_id;
  side = q.signal.side;
  trading_date = q.trading_date;
  stop_price = q.stop_price;
  target_price = q.target_price;
  last_candle_end_at = some q.signal.candle.end_at;
}

kept : Result PositionRow → Option PositionRow
kept (ok p) = some p
kept (err e) = none

result_of : ℕ → Order → Result (Option PositionRow) × Database → Result ExecutionResult × Database
result_of correlation_id order (err e, db) = (err e, db)
result_of correlation_id order (ok p, db) = (
  ok (record {
    correlation_id = some correlation_id;
    order = some order;
    position = p;
    skipped_reason = none;
  }),
  db,
)

refused_with : ℕ → Order → ℕ → Result ℕ × Database → Result ExecutionResult × Database
refused_with correlation_id order reason (err e, db) = (err e, db)
refused_with correlation_id order reason (ok id, db) = (
  ok (record {
    correlation_id = some correlation_id;
    order = some order;
    position = none;
    skipped_reason = some (broker_rejected reason);
  }),
  db,
)

module _ (divide : ℕ → ℕ → ℕ) where
  -- The loop over the fills: a raise ends it.
  unfoldable pub apply_fills :
      OrderLifecycle
      → Request
      → ℕ
      → OrderStatus
      → List Fill
      → Option PositionRow
      → Database
      → Result (Option PositionRow) × Database
  unfolding kept apply_of
  apply_fills l q order_id status [] p db = (ok p, db)
  apply_fills l q order_id status (f ∷ fs) p db =
      let (r, db1) = apply_fill divide q.now (apply_of l q order_id status f) db in
      let (rest, db2) = apply_fills l q order_id status fs (kept r) db1 in
      elim r [ ok p1 ↦ (rest, db2) | err e ↦ (err e, db1) ]

  accepted_in :
      OrderLifecycle → Request → ℕ → Order → Result ℕ × Database → Result ExecutionResult × Database
  unfolding result_of apply_fills
  accepted_in l q correlation_id order (err e, db) = (err e, db)
  accepted_in l q correlation_id order (ok id, db) =
      result_of correlation_id order (apply_fills l q id order.status order.fills none db)

  -- What follows the broker's answer.
  unfoldable pub answered :
      OrderLifecycle → Request → ℕ → ℕ → Submission → Database → Result ExecutionResult × Database
  unfolding accepted_in refused_with rejected_order
  answered l q correlation_id intent_id (accepted order) db =
      accepted_in l q correlation_id order
        (record_submission q.now q.reported intent_id order l.runtime_id db)
  answered l q correlation_id intent_id (refused reason) db =
      let order = rejected_order l q correlation_id reason in
      let noted =
        record_error
          (record {
            runtime_id = l.runtime_id;
            strategy_id = l.strategy_id;
            execution_mode = l.execution_mode;
            message = reason;
            context = correlation_id;
          })
          db in
      refused_with correlation_id order reason
        (record_submission q.now q.reported intent_id order l.runtime_id noted)
  answered l q correlation_id intent_id (failed e) db = (err e, db)

  module _ {B : Type 0} (broker : Broker B) (correlate : Mode → ℕ → ℕ → ℕ → ℕ → Result ℕ)
      (quotes : Option QuoteBook) where
    pub reserved :
        OrderLifecycle
        → Request
        → OrderIntent
        → Result ℕ × Database
        → B
        → Result ExecutionResult × Database × B
    unfolding answered quote_for
    reserved l q i (err e, db) b = (err e, db, b)
    reserved l q i (ok intent_id, db) b =
        let (answer, b1) = broker.submit i (quote_for quotes q.signal) b in
        let (r, db1) = answered l q i.correlation_id intent_id answer db in (r, db1, b1)

    correlated :
        OrderLifecycle
        → Request
        → ℕ
        → ℕ
        → Result ℕ
        → Database
        → B
        → Result ExecutionResult × Database × B
    unfolding reserved intent_of
    correlated l q signal_id sequence (err e) db b = (err e, db, b)
    correlated l q signal_id sequence (ok id) db b =
        let i = intent_of l q signal_id sequence id in
        reserved l q i (reserve_intent l.session_id i db) b

    pub signalled :
        OrderLifecycle → Request → Option ℕ × Database → B → Result ExecutionResult × Database × B
    unfolding correlated
    signalled l q (none, db) b = (
      ok (record {
        correlation_id = none;
        order = none;
        position = none;
        skipped_reason = some duplicate_signal;
      }),
      db,
      b,
    )
    signalled l q (some signal_id, db) b =
        let sequence = next_sequence_number l.strategy_id l.execution_mode q.trading_date db in
        correlated l q signal_id sequence
          (correlate l.execution_mode l.runtime_id l.strategy_id q.trading_date sequence) db b

    unfoldable pub handle_signal :
        OrderLifecycle → Request → Database → B → Result ExecutionResult × Database × B
    unfolding signalled
    handle_signal l q db b =
        signalled l q
          (record_signal l.session_id l.runtime_id q.signal q.trading_date l.config_fingerprint db)
          b
