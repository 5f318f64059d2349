-- ===== src/Store/Fills.antt =====
-- `apply_fill`: the fill, the order's totals, the quote, the position and the state of the day, in
-- one transaction.
pub mod Replay
pub mod Totals
pub mod Ledger
use algo_trading.Common.{
  ℕ, zero, suc, ◌+◌, ◌*◌, Bool, true, false, ◌&&◌, ◌||◌, Option, none, some, List, [], ◌∷◌, ◌++◌,
  ◌==◌, is_some, if◌then◌else◌,
}
use algo_trading.Common.Int.{ℤ}
use algo_trading.Models.{Side, Fill, OrderStatus, Result, ok, err, runtime_error, integrity_error}
use algo_trading.Store.Rows.{Day, Slot, PositionRow, FillRow, OrderRow, QuoteRow, Database}
use algo_trading.Store.Positions.{read_position, upsert_position}
use algo_trading.Store.States.{touch_strategy_state}

-- The arguments of a call.
pub record Apply : Type 0 where
  pub order_id : ℕ
  pub runtime_id : ℕ
  pub fill : Fill
  pub order_status : OrderStatus
  pub instrument : ℕ
  pub security_id : ℕ
  pub side : Side
  pub trading_date : ℕ
  pub stop_price : Option ℕ
  pub target_price : Option ℕ
  pub last_candle_end_at : Option ℕ

unfoldable pub day_of : Apply → Day
day_of a = record {
  strategy_id = a.fill.strategy_id;
  execution_mode = a.fill.execution_mode;
  trading_date = a.trading_date;
}

unfoldable pub slot_of : Apply → Slot
unfolding day_of
slot_of a = record { day = day_of a; security_id = a.security_id }

-- `SELECT id FROM fills WHERE order_id = ? AND broker_fill_id = ?`
unfoldable pub is_recorded : ℕ → ℕ → List FillRow → Bool
is_recorded order_id broker_fill_id [] = false
is_recorded order_id broker_fill_id (r ∷ rs) =
    (r.order_id == order_id && r.fill.broker_fill_id == broker_fill_id)
    || is_recorded order_id broker_fill_id rs

-- `SUM(quantity)` and `SUM(price * quantity)` over the fills of an order.
unfoldable pub filled_quantity : ℕ → List FillRow → ℕ
filled_quantity order_id [] = 0
filled_quantity order_id (r ∷ rs) =
    (if r.order_id == order_id then r.fill.quantity else 0) + filled_quantity order_id rs

unfoldable pub notional : ℕ → List FillRow → ℕ
notional order_id [] = 0
notional order_id (r ∷ rs) =
    (if r.order_id == order_id then r.fill.price * r.fill.quantity else 0) + notional order_id rs

-- Whether the foreign key of a fill names an order.
unfoldable pub has_order : ℕ → List OrderRow → Bool
has_order id [] = false
has_order id (o ∷ os) = o.id == id || has_order id os

-- `UPDATE orders … WHERE id = ?`
unfoldable pub set_order : ℕ → OrderStatus → ℕ → Option ℕ → ℕ → List OrderRow → List OrderRow
set_order id status filled average now [] = []
set_order id status filled average now (o ∷ os) =
    (if o.id == id
      then record o {
        status = status;
        filled_quantity = filled;
        average_fill_price = average;
        updated_at = now;
      }
      else o)
    ∷ set_order id status filled average now os

has_quote : ℕ → ℕ → List QuoteRow → Bool
has_quote order_id broker_fill_id [] = false
has_quote order_id broker_fill_id (r ∷ rs) =
    (r.order_id == order_id && r.broker_fill_id == broker_fill_id)
    || has_quote order_id broker_fill_id rs

with_quote : ℕ → Fill → List QuoteRow → List QuoteRow
unfolding has_quote
with_quote order_id f quotes =
    if is_some f.quote_bid || is_some f.quote_ask || is_some f.latency_applied
    then if has_quote order_id f.broker_fill_id quotes
      then quotes
      else quotes
        ++ (record {
          order_id = order_id;
          broker_fill_id = f.broker_fill_id;
          quote_bid = f.quote_bid;
          quote_ask = f.quote_ask;
          quote_age_ms = f.quote_age_ms;
          latency_applied = f.latency_applied;
          fill_method = f.fill_method;
        })
          ∷ []
    else quotes

unfoldable pub record_fill_quote : ℕ → Fill → Database → Database
unfolding with_quote
record_fill_quote order_id f db = record db { fill_quotes = with_quote order_id f db.fill_quotes }

unfoldable pub or_missing : Option PositionRow → Result PositionRow
or_missing none = err runtime_error
or_missing (some p) = ok p

module _ (divide : ℕ → ℕ → ℕ) where
  -- The fill is inserted, and the order's totals are computed from its fills.
  unfoldable pub insert_fill : ℕ → Apply → Database → Database
  unfolding filled_quantity notional set_order
  insert_fill now a db =
      let fills =
        db.fills
        ++ (record { order_id = a.order_id; runtime_id = a.runtime_id; fill = a.fill }) ∷ [] in
      let filled = filled_quantity a.order_id fills in
      let average : Option ℕ =
        if filled == 0 then none else some (divide (notional a.order_id fills) filled) in
      record db {
        fills = fills;
        orders = set_order a.order_id a.order_status filled average now db.orders;
      }

  unfoldable pub apply_new : ℕ → Apply → Database → PositionRow × Database
  unfolding insert_fill record_fill_quote upsert_position touch_strategy_state day_of
  apply_new now a db =
      let db1 = record_fill_quote a.order_id a.fill (insert_fill now a db) in
      let (position, realised_delta, db2) =
        upsert_position divide now a.runtime_id a.fill a.instrument a.security_id a.side
          a.trading_date a.stop_price a.target_price db1 in
      (
        position,
        touch_strategy_state now a.runtime_id (day_of a) a.last_candle_end_at realised_delta db2,
      )

  unfoldable pub apply_fill : ℕ → Apply → Database → Result PositionRow × Database
  unfolding or_missing
  apply_fill now a db =
      let (position, db') = apply_new now a db in
      if is_recorded a.order_id a.fill.broker_fill_id db.fills
      then (or_missing (read_position (slot_of a) db), db)
      else if has_order a.order_id db.orders
      then (ok position, db')
      else (err integrity_error, db)
