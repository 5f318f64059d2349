-- ===== src/Broker/Rules.antt =====
-- The configuration of common/broker/paper.py and the rules of an instrument. Slippage is a number
-- of ten-thousandths: of a tick, or of the price unit; ticks and lots are positive.
use algo_trading.Common.{ℕ, Option, none, some, List, if◌then◌else◌, ◌==◌, ◌||◌, Bool, false}
use algo_trading.Models.{Result, ok, err, value_error}

pub data PaperRejectionCode : Type 0 where
  invalid_instrument invalid_quantity invalid_tick_price stale_quote : PaperRejectionCode
  no_depth market_closed risk_blocked duplicate_correlation_id : PaperRejectionCode
  injected_failure : PaperRejectionCode

-- The number that stands for the text of a rejection.
abbrev pub text_of : PaperRejectionCode → ℕ
text_of invalid_instrument = 1
text_of invalid_quantity = 2
text_of invalid_tick_price = 3
text_of stale_quote = 4
text_of no_depth = 5
text_of market_closed = 6
text_of risk_blocked = 7
text_of duplicate_correlation_id = 8
text_of injected_failure = 9

pub record InstrumentRules : Type 0 where
  pub lot_size : Option ℕ
  pub tick_size : Option ℕ
  pub max_quantity : Option ℕ

abbrev pub no_rules : InstrumentRules
no_rules = record { lot_size = none; tick_size = none; max_quantity = none }

pub data SlippageMode : Type 0 where
  ticks points basis_points : SlippageMode

pub record SlippageConfig : Type 0 where
  pub mode : SlippageMode
  pub market_order_ticks : ℕ
  pub market_order_points : ℕ
  pub market_order_bps : ℕ

pub record PaperFillConfig : Type 0 where
  pub slippage : SlippageConfig
  pub submission_latency_ms : ℕ
  pub max_quote_age_ms : Option ℕ
  pub tick_size : Option ℕ
  pub allow_ltp_fallback : Bool
  pub ltp_fallback_extra_ticks : ℕ
  pub reject_when_market_closed : Bool
  pub reject_correlation_ids : List ℕ

is_zero : Option ℕ → Bool
is_zero none = false
is_zero (some n) = n == 0

-- The checks of `PaperFillConfig.__post_init__`; no number here is negative.
unfoldable pub new_config : PaperFillConfig → Result PaperFillConfig
unfolding is_zero
new_config c = if is_zero c.max_quote_age_ms || is_zero c.tick_size then err value_error else ok c
