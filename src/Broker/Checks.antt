-- ===== src/Broker/Checks.antt =====
-- The checks of a submission in common/broker/paper.py, in their order. A moment is a number of
-- microseconds, so the age of a quote is a number of thousandths of a millisecond.
use algo_trading.Common.{
  ℕ, ◌-◌, ◌*◌, ◌%◌, Bool, false, not, ◌&&◌, ◌||◌, Option, none, some, List, [], ◌∷◌, leb, ltb, ◌==◌,
  is_some, if◌then◌else◌,
}
use algo_trading.Common.Dict.{Dict, lookup}
use algo_trading.Models.{is_limit, is_allowed}
use algo_trading.Store.Rows.{OrderIntent}
use algo_trading.Store.Intents.{Order}
use algo_trading.Broker.{Quote, has_depth}
use algo_trading.Broker.Rules.{
  PaperRejectionCode, invalid_instrument, invalid_quantity, invalid_tick_price, stale_quote,
  no_depth, market_closed, risk_blocked, duplicate_correlation_id, injected_failure,
  InstrumentRules, no_rules, PaperFillConfig,
}
use algo_trading.Broker.Pricing.{tick_for}

-- A check passes, or names the code of its refusal.
abbrev pub Check : Type 0
Check = Option PaperRejectionCode

abbrev pub refuse_if : Bool → PaperRejectionCode → Check
refuse_if b code = if b then some code else none

-- The first refusal of two checks.
infixr 30 ◌then_check◌
abbrev pub ◌then_check◌ : Check → Check → Check
none then_check c = c
some code then_check c = some code

unfoldable pub age : ℕ → Quote → Option ℕ
age now q = if leb q.quoted_at now then some (now - q.quoted_at) else none

unfoldable pub check_quantity : OrderIntent → InstrumentRules → Check
check_quantity i rules =
    refuse_if (i.quantity == 0) invalid_quantity
    then_check elim rules.lot_size [
      | none ↦ none
      | some lot ↦ refuse_if (not ((i.quantity % lot) == 0)) invalid_quantity
    ]
    then_check elim rules.max_quantity [
      | none ↦ none
      | some most ↦ refuse_if (ltb most i.quantity) invalid_quantity
    ]

pub off_grid : Option ℕ → ℕ → Check
off_grid none price = none
off_grid (some tick) price = refuse_if (not ((price % tick) == 0)) invalid_tick_price

unfoldable pub check_limit_price : OrderIntent → Option ℕ → Check
unfolding off_grid
check_limit_price i tick =
    if is_limit i.order_type
    then elim i.limit_price [
      | none ↦ some invalid_tick_price
      | some price ↦ refuse_if (price == 0) invalid_tick_price then_check off_grid tick price
    ]
    else none

unfoldable pub check_freshness : PaperFillConfig → ℕ → Quote → Check
unfolding age
check_freshness c now q = elim c.max_quote_age_ms [
  | none ↦ none
  | some most ↦ elim (age now q) [
    | none ↦ none
    | some old ↦ refuse_if (ltb (most * 1000) old) stale_quote
  ]
]

unfoldable pub check_session : PaperFillConfig → Option (ℕ → Bool) → Quote → Check
check_session c is_market_open q =
    if c.reject_when_market_closed
    then elim is_market_open [
      | none ↦ none
      | some is_open ↦ refuse_if (not (is_open q.quoted_at)) market_closed
    ]
    else none

unfoldable pub check_depth : PaperFillConfig → Quote → Check
check_depth c q = refuse_if (not (has_depth q) && not c.allow_ltp_fallback) no_depth

unfoldable pub is_listed : ℕ → List ℕ → Bool
is_listed k [] = false
is_listed k (j ∷ js) = (k == j) || is_listed k js

-- The checks before the rules of the instrument are read.
unfoldable pub check_intent : PaperFillConfig → Dict Order → OrderIntent → Quote → Check
check_intent c orders i q =
    refuse_if (is_some (lookup i.correlation_id orders)) duplicate_correlation_id
    then_check refuse_if (is_listed i.correlation_id c.reject_correlation_ids) injected_failure
    then_check refuse_if (not (is_allowed i.risk_decision)) risk_blocked
    then_check refuse_if (not (q.security_id == i.security_id)) invalid_instrument

unfoldable pub rules_for : Option (ℕ → Option InstrumentRules) → ℕ → Option InstrumentRules
rules_for none security_id = some no_rules
rules_for (some master) security_id = master security_id

-- The checks after it.
unfoldable pub check_rules :
    PaperFillConfig → Option (ℕ → Bool) → ℕ → OrderIntent → Quote → InstrumentRules → Check
check_rules c is_market_open now i q rules =
    check_quantity i rules
    then_check check_limit_price i (tick_for c rules)
    then_check check_freshness c now q
    then_check check_session c is_market_open q
    then_check check_depth c q
