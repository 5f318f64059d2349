-- ===== src/Store/Rows.antt =====
-- The tables `signals`, `order_intents`, `orders`, `fills`, `paper_fill_quotes`, `positions`,
-- `strategy_state` and `errors`. The moment
-- that `_now()` reads is an argument `now` of the methods.
use algo_trading.Common.{ℕ, ◌≡◌, ◌↔◌, Bool, true, ◌&&◌, Option, List, arith, ◌==◌}
use algo_trading.Common.Int.{ℤ}
use algo_trading.Common.Table.{Table}
use algo_trading.Models.{
  OrderType, RiskDecision, Side, Candle, Mode, paper, live, same_mode, Fill, OrderStatus,
  PositionStatus,
}
use algo_trading.Risk.SquareOff.{SquareOffState}

-- The unique key of `strategy_state`.
pub record Day : Type 0 where
  pub strategy_id : ℕ
  pub execution_mode : Mode
  pub trading_date : ℕ

unfoldable pub same_day : Day → Day → Bool
same_day j k =
    j.strategy_id == k.strategy_id
    && same_mode j.execution_mode k.execution_mode
    && j.trading_date == k.trading_date

-- The unique key of `positions`.
pub record Slot : Type 0 where
  pub day : Day
  pub security_id : ℕ

unfoldable pub same_slot : Slot → Slot → Bool
unfolding same_day
same_slot j k = same_day j.day k.day && j.security_id == k.security_id

pub same_mode_iff : (a b : Mode) → (same_mode a b ≡ true) ↔ (a ≡ b)
same_mode_iff paper paper = ground arith
same_mode_iff paper live = ground arith
same_mode_iff live paper = ground arith
same_mode_iff live live = ground arith

pub same_day_iff : (j k : Day) → (same_day j k ≡ true) ↔ (j ≡ k)
unfolding same_day
same_day_iff j k = ground (arith, same_mode_iff j.execution_mode k.execution_mode)

pub same_slot_iff : (j k : Slot) → (same_slot j k ≡ true) ↔ (j ≡ k)
same_slot_iff j k = unfold same_slot in ground (arith, same_day_iff j.day k.day)

-- A row of `positions` but for its key; the average price is in price units too.
pub record PositionRow : Type 0 where
  pub runtime_id : ℕ
  pub instrument : ℕ
  pub quantity : ℤ
  pub average_price : ℕ
  pub entry_correlation_id : Option ℕ
  pub stop_price : Option ℕ
  pub target_price : Option ℕ
  pub highest_favourable : Option ℤ
  pub lowest_favourable : Option ℤ
  pub realised_pnl : ℤ
  pub charges : ℤ
  pub status : PositionStatus
  pub opened_at : ℕ
  pub updated_at : ℕ
  pub closed_at : Option ℕ

-- A row of `strategy_state` but for its key. An unreadable `square_off_state` is `none`.
pub record StateRow : Type 0 where
  pub runtime_id : ℕ
  pub state_version : ℕ
  pub last_candle_end_at : Option ℕ
  pub daily_realised_pnl : ℤ
  pub entries_blocked : Bool
  pub square_off_state : Option SquareOffState
  pub square_off_attempts : ℕ
  pub payload : Option ℕ
  pub updated_at : ℕ

pub record FillRow : Type 0 where
  pub order_id : ℕ
  pub runtime_id : ℕ
  pub fill : Fill

pub record OrderRow : Type 0 where
  pub id : ℕ
  pub intent_id : ℕ
  pub correlation_id : ℕ
  pub runtime_id : ℕ
  pub strategy_id : ℕ
  pub execution_mode : Mode
  pub broker_order_id : Option ℕ
  pub status : OrderStatus
  pub filled_quantity : ℕ
  pub average_fill_price : Option ℕ
  pub rejection_reason : Option ℕ
  pub submitted_at : ℕ
  pub updated_at : ℕ

pub record QuoteRow : Type 0 where
  pub order_id : ℕ
  pub broker_fill_id : ℕ
  pub quote_bid : Option ℕ
  pub quote_ask : Option ℕ
  pub quote_age_ms : Option ℕ
  pub latency_applied : Option Bool
  pub fill_method : Option ℕ

-- The columns of the candle are a candle.
pub record SignalRow : Type 0 where
  pub id : ℕ
  pub session_id : ℕ
  pub runtime_id : ℕ
  pub strategy_id : ℕ
  pub execution_mode : Mode
  pub trading_date : ℕ
  pub instrument : ℕ
  pub security_id : ℕ
  pub side : Side
  pub candle : Candle
  pub reference_price : ℕ
  pub evaluated_at : ℕ
  pub reason : ℕ
  pub config_fingerprint : Option ℕ

-- The intent that a row of `order_intents` holds.
pub record OrderIntent : Type 0 where
  pub correlation_id : ℕ
  pub strategy_id : ℕ
  pub runtime_id : ℕ
  pub execution_mode : Mode
  pub trading_date : ℕ
  pub sequence_number : ℕ
  pub instrument : ℕ
  pub security_id : ℕ
  pub side : Side
  pub quantity : ℕ
  pub order_type : OrderType
  pub product_type : ℕ
  pub created_at : ℕ
  pub limit_price : Option ℕ
  pub trigger_price : Option ℕ
  pub signal_id : Option ℕ
  pub basket_id : Option ℕ
  pub leg_id : Option ℕ
  pub config_fingerprint : Option ℕ
  pub risk_decision : RiskDecision
  pub risk_reason : Option ℕ

pub record IntentRow : Type 0 where
  pub id : ℕ
  pub session_id : ℕ
  pub intent : OrderIntent
  pub submission_reserved : Bool

-- A row of `errors`, which names the intent it is about.
pub record ErrorRow : Type 0 where
  pub runtime_id : ℕ
  pub strategy_id : ℕ
  pub execution_mode : Mode
  pub message : ℕ
  pub context : ℕ

pub record Database : Type 0 where
  pub signals : List SignalRow
  pub intents : List IntentRow
  pub errors : List ErrorRow
  pub orders : List OrderRow
  pub fills : List FillRow
  pub fill_quotes : List QuoteRow
  pub positions : Table Slot PositionRow
  pub states : Table Day StateRow
