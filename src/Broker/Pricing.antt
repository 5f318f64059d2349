-- ===== src/Broker/Pricing.antt =====
-- The price of a market order of common/broker/paper.py. Amounts are numbers of ten-thousandths of
-- the price unit until the price is rounded; below zero they are zero, which is refused as well.
pub mod Grid
pub mod Market
use algo_trading.Common.{
  ℕ, ◌+◌, ◌-◌, ◌*◌, ◌/◌, ◌||◌, Bool, true, false, Option, none, some, or_else, ◌==◌, if◌then◌else◌,
}
use algo_trading.Models.{Side, is_buy}
use algo_trading.Broker.{Quote, has_depth}
use algo_trading.Broker.Rules.{
  PaperRejectionCode, no_depth, invalid_tick_price, InstrumentRules, SlippageConfig, SlippageMode,
  ticks, points, basis_points, PaperFillConfig,
}

abbrev pub scale : ℕ
scale = 10000

-- `SlippageConfig.amount`; none is its refusal.
unfoldable pub amount : SlippageConfig → ℕ → Option ℕ → Option ℕ
amount c base_price tick = elim c.mode [
  | points ↦ some c.market_order_points
  | basis_points ↦ some (base_price * c.market_order_bps)
  | ticks ↦ elim tick [ none ↦ none | some size ↦ some (c.market_order_ticks * size) ]
]

-- A price of ten-thousandths, on the tick grid: up for a purchase, down for a sale.
unfoldable pub round_to_tick : ℕ → ℕ → Side → ℕ
round_to_tick price tick side =
    let step = tick * scale in
    (if is_buy side then (price + (step - 1)) / step else price / step) * tick

unfoldable pub tick_for : PaperFillConfig → InstrumentRules → Option ℕ
tick_for c rules = elim rules.tick_size [ some tick ↦ some tick | none ↦ c.tick_size ]

-- The names of the ways to fill.
abbrev pub bid_ask : ℕ
bid_ask = 1

abbrev pub ltp_fallback : ℕ
ltp_fallback = 2

abbrev pub at_limit : ℕ
at_limit = 3

-- A price and the way it was found, a refusal, or a refusal that is not counted.
pub data Priced : Type 0 where
  priced : ℕ → ℕ → Priced
  unpriced : PaperRejectionCode → Priced
  uncounted : PaperRejectionCode → Priced

-- What a purchase pays above the base, and a sale receives below it.
unfoldable pub moved_price : Side → ℕ → ℕ → ℕ
moved_price side base slippage =
    if is_buy side then base * scale + slippage else base * scale - slippage

-- The side of the book that the order takes.
unfoldable pub base_of : Side → Quote → ℕ
base_of side q =
    if has_depth q
    then or_else (if is_buy side then q.ask else q.bid) q.last_price
    else q.last_price

unfoldable pub extra_of : PaperFillConfig → Option ℕ → Quote → ℕ
extra_of c tick q = if has_depth q then 0 else c.ltp_fallback_extra_ticks * or_else tick 0

unfoldable pub method_of : Quote → ℕ
method_of q = if has_depth q then bid_ask else ltp_fallback

module _ (divide : ℕ → ℕ → ℕ) where
  -- With a tick the price is on its grid, without one it is rounded to the price unit.
  unfoldable pub rounded : Option ℕ → Side → ℕ → ℕ → Priced
  unfolding round_to_tick
  rounded none side price method =
      if price == 0 then unpriced invalid_tick_price else priced (divide price scale) method
  rounded (some tick) side price method =
      let price1 = round_to_tick price tick side in
      if price1 == 0 then unpriced invalid_tick_price else priced price1 method

  slipped : Side → Option ℕ → ℕ → ℕ → ℕ → Option ℕ → Priced
  unfolding moved_price
  slipped side tick base extra method none = uncounted invalid_tick_price
  slipped side tick base extra method (some slippage) =
      rounded tick side (moved_price side base (slippage + extra)) method

  unfoldable pub market_price : PaperFillConfig → Side → Quote → InstrumentRules → Priced
  unfolding slipped base_of extra_of method_of
  market_price c side q rules =
      let tick = tick_for c rules in
      let base = base_of side q in
      if has_depth q || c.allow_ltp_fallback
      then slipped side tick base (extra_of c tick q) (method_of q) (amount c.slippage base tick)
      else unpriced no_depth
