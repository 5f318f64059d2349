-- ===== src/Store/Intents.antt =====
-- record_signal, next_sequence_number, reserve_intent, record_submission and record_error. A row's
-- number is one more than the largest, since none of these tables loses a row. The session that the
-- rows name is open, and a signal's row can break no constraint but its unique key, so that alone
-- makes record_signal report a duplicate. What the cursor reports as the last row after an update is an argument.
pub mod Sequence
pub mod Kept
use algo_trading.Common.{
  ℕ, zero, suc, ◌+◌, Bool, true, false, ◌&&◌, ◌||◌, Option, none, some, List, [], ◌∷◌, ◌++◌, max,
  ◌==◌, if◌then◌else◌,
}
use algo_trading.Models.{
  Mode, same_mode, Side, Candle, OrderStatus, Fill, Error, Result, ok, err, integrity_error,
  key_error,
}
use algo_trading.Store.Rows.{SignalRow, OrderIntent, IntentRow, OrderRow, ErrorRow, Database}

-- `Signal`
pub record Signal : Type 0 where
  pub strategy_id : ℕ
  pub execution_mode : Mode
  pub instrument : ℕ
  pub security_id : ℕ
  pub side : Side
  pub quantity : ℕ
  pub candle : Candle
  pub reference_price : ℕ
  pub evaluated_at : ℕ
  pub reason : ℕ

-- `Order`
pub record Order : Type 0 where
  pub correlation_id : ℕ
  pub strategy_id : ℕ
  pub execution_mode : Mode
  pub status : OrderStatus
  pub updated_at : ℕ
  pub broker_order_id : Option ℕ
  pub filled_quantity : ℕ
  pub average_fill_price : Option ℕ
  pub rejection_reason : Option ℕ
  pub fills : List Fill

-- The unique key of `signals`.
unfoldable pub is_signalled : Signal → List SignalRow → Bool
is_signalled s [] = false
is_signalled s (r ∷ rs) =
    (s.strategy_id == r.strategy_id
      && same_mode s.execution_mode r.execution_mode
      && s.instrument == r.instrument
      && s.candle.end_at == r.candle.end_at)
    || is_signalled s rs

last_signal_id : List SignalRow → ℕ
last_signal_id [] = 0
last_signal_id (r ∷ rs) = max r.id (last_signal_id rs)

-- `None` is a signal that the candle already produced.
unfoldable pub record_signal : ℕ → ℕ → Signal → ℕ → Option ℕ → Database → Option ℕ × Database
unfolding last_signal_id
record_signal session_id runtime_id s trading_date fingerprint db =
    let id = last_signal_id db.signals + 1 in
    let row : SignalRow = record {
      id = id;
      session_id = session_id;
      runtime_id = runtime_id;
      strategy_id = s.strategy_id;
      execution_mode = s.execution_mode;
      trading_date = trading_date;
      instrument = s.instrument;
      security_id = s.security_id;
      side = s.side;
      candle = s.candle;
      reference_price = s.reference_price;
      evaluated_at = s.evaluated_at;
      reason = s.reason;
      config_fingerprint = fingerprint;
    } in
    if is_signalled s db.signals
    then (none, db)
    else (some id, record db { signals = db.signals ++ row ∷ [] })

-- The intents of a strategy's day.
unfoldable pub is_of_day : ℕ → Mode → ℕ → OrderIntent → Bool
is_of_day strategy_id mode trading_date i =
    i.strategy_id == strategy_id
    && same_mode i.execution_mode mode
    && i.trading_date == trading_date

unfoldable pub last_sequence_number : ℕ → Mode → ℕ → List IntentRow → ℕ
last_sequence_number strategy_id mode trading_date [] = 0
last_sequence_number strategy_id mode trading_date (r ∷ rs) =
    max (if is_of_day strategy_id mode trading_date r.intent then r.intent.sequence_number else 0)
      (last_sequence_number strategy_id mode trading_date rs)

unfoldable pub next_sequence_number : ℕ → Mode → ℕ → Database → ℕ
unfolding last_sequence_number
next_sequence_number strategy_id mode trading_date db =
    last_sequence_number strategy_id mode trading_date db.intents + 1

-- The two unique keys of `order_intents`.
unfoldable pub is_correlated : ℕ → List IntentRow → Bool
is_correlated correlation_id [] = false
is_correlated correlation_id (r ∷ rs) =
    r.intent.correlation_id == correlation_id || is_correlated correlation_id rs

unfoldable pub is_sequenced : ℕ → Mode → ℕ → ℕ → List IntentRow → Bool
is_sequenced strategy_id mode trading_date number [] = false
is_sequenced strategy_id mode trading_date number (r ∷ rs) =
    (is_of_day strategy_id mode trading_date r.intent && r.intent.sequence_number == number)
    || is_sequenced strategy_id mode trading_date number rs

last_intent_id : List IntentRow → ℕ
last_intent_id [] = 0
last_intent_id (r ∷ rs) = max r.id (last_intent_id rs)

unfoldable pub reserve_intent : ℕ → OrderIntent → Database → Result ℕ × Database
unfolding last_intent_id
reserve_intent session_id i db =
    let id = last_intent_id db.intents + 1 in
    let row : IntentRow = record {
      id = id;
      session_id = session_id;
      intent = i;
      submission_reserved = true;
    } in
    if is_correlated i.correlation_id db.intents
      || is_sequenced i.strategy_id i.execution_mode i.trading_date i.sequence_number db.intents
    then (err integrity_error, db)
    else (ok id, record db { intents = db.intents ++ row ∷ [] })

-- `SELECT id FROM orders WHERE intent_id = ?`
order_of : ℕ → List OrderRow → Option ℕ
order_of intent_id [] = none
order_of intent_id (o ∷ os) = if o.intent_id == intent_id then some o.id else order_of intent_id os

is_ordered : ℕ → List OrderRow → Bool
is_ordered correlation_id [] = false
is_ordered correlation_id (o ∷ os) =
    o.correlation_id == correlation_id || is_ordered correlation_id os

last_order_id : List OrderRow → ℕ
last_order_id [] = 0
last_order_id (o ∷ os) = max o.id (last_order_id os)

update_order : ℕ → ℕ → Order → List OrderRow → List OrderRow
update_order now intent_id order [] = []
update_order now intent_id order (o ∷ os) =
    (if o.intent_id == intent_id
      then record o {
        status = order.status;
        broker_order_id = order.broker_order_id;
        filled_quantity = order.filled_quantity;
        average_fill_price = order.average_fill_price;
        rejection_reason = order.rejection_reason;
        updated_at = now;
      }
      else o)
    ∷ update_order now intent_id order os

-- `int(cursor.lastrowid or 0)`, and the SELECT where it is 0.
row_id : ℕ → ℕ → Result ℕ
row_id zero id = ok id
row_id (suc n) id = ok (suc n)

submitted_in : ℕ → ℕ → ℕ → Order → ℕ → Database → Option ℕ → Result ℕ × Database
unfolding row_id update_order last_order_id is_ordered
submitted_in now reported intent_id order runtime_id db (some id) =
    (row_id reported id, record db { orders = update_order now intent_id order db.orders })
submitted_in now reported intent_id order runtime_id db none =
    let id = last_order_id db.orders + 1 in
    let row : OrderRow = record {
      id = id;
      intent_id = intent_id;
      correlation_id = order.correlation_id;
      runtime_id = runtime_id;
      strategy_id = order.strategy_id;
      execution_mode = order.execution_mode;
      broker_order_id = order.broker_order_id;
      status = order.status;
      filled_quantity = order.filled_quantity;
      average_fill_price = order.average_fill_price;
      rejection_reason = order.rejection_reason;
      submitted_at = order.updated_at;
      updated_at = now;
    } in
    if is_ordered order.correlation_id db.orders
    then (err integrity_error, db)
    else (ok id, record db { orders = db.orders ++ row ∷ [] })

unfoldable pub record_submission : ℕ → ℕ → ℕ → Order → ℕ → Database → Result ℕ × Database
unfolding submitted_in order_of
record_submission now reported intent_id order runtime_id db =
    submitted_in now reported intent_id order runtime_id db (order_of intent_id db.orders)

unfoldable pub record_error : ErrorRow → Database → Database
record_error e db = record db { errors = db.errors ++ e ∷ [] }
