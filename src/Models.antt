-- ===== src/Models.antt =====
-- The value types of common/models/market.py and common/models/trading.py. Identifiers are only
-- compared, so they are numbers; a moment is a number of microseconds; prices are positive numbers
-- of the smallest price unit, and amounts of money are signed.
use algo_trading.Common.{
  ℕ, ◌≡◌, refl, ◌⊎◌, inl, inr, Bool, true, false, ◌||◌, Option, leb, ltb, if◌then◌else◌,
}
use algo_trading.Common.Int.{ℤ, pos, negsuc}

-- What a call may raise.
pub data Error : Type 0 where
  value_error runtime_error integrity_error key_error : Error

pub data Result {ℓ} (A : Type ℓ) : Type ℓ where
  ok : A → Result A
  err : Error → Result A

pub data Side : Type 0 where
  buy sell : Side

unfoldable pub opposite : Side → Side
opposite buy = sell
opposite sell = buy

unfoldable pub sign : Side → ℤ
sign buy = pos 1
sign sell = negsuc 0

abbrev pub is_buy : Side → Bool
is_buy buy = true
is_buy sell = false

pub data OptionType : Type 0 where
  ce pe : OptionType

abbrev pub is_ce : OptionType → Bool
is_ce ce = true
is_ce pe = false

pub data ExitReason : Type 0 where
  stop_loss trailing_stop target_profit opposite_signal strategy_exit square_off : ExitReason
  manual daily_loss_limit adjustment momentum_low momentum_high : ExitReason
  highest_close_trail lowest_close_trail momentum_and_trail : ExitReason

pub record Tick : Type 0 where
  pub security_id : ℕ
  pub instrument : ℕ
  pub last_price : ℕ
  pub exchange_time : ℕ
  pub received_at : ℕ
  pub last_quantity : ℕ
  pub bid_price : Option ℕ
  pub ask_price : Option ℕ

pub record Candle : Type 0 where
  pub security_id : ℕ
  pub instrument : ℕ
  pub open_price : ℕ
  pub high : ℕ
  pub low : ℕ
  pub close : ℕ
  pub volume : ℕ
  pub start_at : ℕ
  pub end_at : ℕ
  pub tick_count : ℕ
  pub last_tick_at : Option ℕ
  pub spans_gap : Bool

-- The checks of `Candle.__post_init__` in its order; every moment here is timezone-aware.
unfoldable pub new_candle : Candle → Result Candle
new_candle c =
    if leb c.end_at c.start_at
    then err value_error
    else if ltb c.high c.low
    then err value_error
    else if ltb c.open_price c.low || ltb c.high c.open_price
    then err value_error
    else if ltb c.close c.low || ltb c.high c.close
    then err value_error
    else ok c

pub Result-cases {ℓ} :
    {A : Type ℓ} (r : Result A) → ((a : A) × (r ≡ ok a)) ⊎ ((e : Error) × (r ≡ err e))
Result-cases (ok a) = inl (a, refl)
Result-cases (err e) = inr (e, refl)

-- `ExecutionMode` of common/config/models.py
pub data Mode : Type 0 where
  paper live : Mode

abbrev pub same_mode : Mode → Mode → Bool
same_mode paper paper = true
same_mode live live = true
same_mode _ _ = false

pub data OrderType : Type 0 where
  market limit : OrderType

abbrev pub is_limit : OrderType → Bool
is_limit limit = true
is_limit market = false

pub data RiskDecision : Type 0 where
  allowed blocked : RiskDecision

abbrev pub is_allowed : RiskDecision → Bool
is_allowed allowed = true
is_allowed blocked = false

pub data OrderStatus : Type 0 where
  pending submitted acknowledged partially_filled filled rejected cancelled unknown : OrderStatus

unfoldable pub is_terminal : OrderStatus → Bool
is_terminal filled = true
is_terminal rejected = true
is_terminal cancelled = true
is_terminal _ = false

pub data PositionStatus : Type 0 where
  open_status closed_status : PositionStatus

pub record Fill : Type 0 where
  pub correlation_id : ℕ
  pub broker_fill_id : ℕ
  pub strategy_id : ℕ
  pub execution_mode : Mode
  pub quantity : ℕ
  pub price : ℕ
  pub filled_at : ℕ
  pub reference_price : Option ℕ
  pub slippage_amount : Option ℕ
  pub latency_ms : Option ℕ
  pub fill_method : Option ℕ
  pub charges : ℤ
  pub latency_applied : Option Bool
  pub quote_bid : Option ℕ
  pub quote_ask : Option ℕ
  pub quote_age_ms : Option ℕ
