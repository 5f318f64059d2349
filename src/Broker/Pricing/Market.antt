-- ===== src/Broker/Pricing/Market.antt =====
-- The price of a market order.
use algo_trading.Common.{
  ℕ, zero, suc, ◌+◌, ◌*◌, ◌≤◌, ◌<◌, ◌≡◌, refl, ◌||◌, ◌&&◌, ◌⊎◌, inl, inr, Bool, true, false,
  is_some, Option, none, some, arith, ◌==◌, if-holds, if◌then◌else◌, Option-cases, sym, ap, ◌∙◌,
}
use mathlib.Core.Path.{subst}
use algo_trading.Models.{Side, is_buy, buy, sell}
use algo_trading.Broker.{Quote, has_depth}
use algo_trading.Broker.Rules.{
  no_depth, invalid_tick_price, InstrumentRules, PaperFillConfig, SlippageConfig, points,
  basis_points, ticks,
}
use algo_trading.Broker.Pricing.Grid.{
  round_to_tick-IsAdverse, NotBetter, IsFair, not_better, purchase_rounded,
}
use algo_trading.Broker.Pricing.{
  amount, round_to_tick, tick_for, Priced, priced, unpriced, moved_price, base_of, extra_of,
  method_of, rounded, slipped, market_price,
}

-- A price on the tick grid, above zero: where the quote has a bid and an ask, a purchase pays no less
-- than the ask and a sale receives no more than the bid; where it lacks one, the last price stands for
-- both.
pub record IsMarketPrice (side : Side) (tick : ℕ) (q : Quote) (price : ℕ) : Type 0 where
  pub above : 0 < price
  pub on_grid : (k : ℕ) × (price ≡ k * tick)
  pub pays : (bid ask : ℕ) → side ≡ buy → q.bid ≡ some bid → q.ask ≡ some ask → ask ≤ price
  pub receives : (bid ask : ℕ) → side ≡ sell → q.bid ≡ some bid → q.ask ≡ some ask → price ≤ bid
  pub pays_last : side ≡ buy → (q.bid ≡ none) ⊎ (q.ask ≡ none) → q.last_price ≤ price
  pub receives_last : side ≡ sell → (q.bid ≡ none) ⊎ (q.ask ≡ none) → price ≤ q.last_price

base_deep :
    (side : Side) (q : Quote) (bid ask : ℕ)
    → q.bid ≡ some bid
    → q.ask ≡ some ask
    → base_of side q ≡ (if is_buy side then ask else bid)
unfolding base_of has_depth
base_deep buy q bid ask b a = rw (b, a) refl
base_deep sell q bid ask b a = rw (b, a) refl

no_ask : (b : Bool) → (b && false) ≡ false
no_ask b = ground arith

base_shallow :
    (side : Side) (q : Quote) → (q.bid ≡ none) ⊎ (q.ask ≡ none) → base_of side q ≡ q.last_price
unfolding base_of has_depth
base_shallow side q (inl b) = rw b refl
base_shallow side q (inr a) = rw (a, no_ask (is_some q.bid)) refl

fair_market :
    (side : Side) (tick : ℕ) (q : Quote) (price : ℕ)
    → IsFair side tick (base_of side q) price
    → IsMarketPrice side tick q price
unfolding IsFair NotBetter
fair_market buy tick q price h = record {
  above = h.0;
  on_grid = h.1;
  pays = λ bid ask _ b a. subst (λ x. x ≤ price) (base_deep buy q bid ask b a) h.2;
  receives = λ bid ask wrong. absurd (ground (arith, wrong));
  pays_last = λ _ lacks. subst (λ x. x ≤ price) (base_shallow buy q lacks) h.2;
  receives_last = λ wrong. absurd (ground (arith, wrong));
}
fair_market sell tick q price h = record {
  above = h.0;
  on_grid = h.1;
  pays = λ bid ask wrong. absurd (ground (arith, wrong));
  receives = λ bid ask _ b a. subst (λ x. price ≤ x) (base_deep sell q bid ask b a) h.2;
  pays_last = λ wrong. absurd (ground (arith, wrong));
  receives_last = λ _ lacks. subst (λ x. price ≤ x) (base_shallow sell q lacks) h.2;
}

lt_or_zero : (n : ℕ) → (0 < n) ⊎ (n ≡ 0)
lt_or_zero zero = inr refl
lt_or_zero (suc n) = inl (omega arith)

neither : (a b : Bool) → (a || b) ≡ false → (a ≡ false) × (b ≡ false)
neither a b h = ground (arith, h)

-- How a market order is priced: at such a price; or refused without a book where the settings allow
-- no fall back to the last price; or refused as worthless, a purchase only where the price that it
-- takes is zero.
pub data IsPricing (c : PaperFillConfig) (side : Side) (q : Quote) (tick : ℕ) (r : Priced)
    : Type 0 where
  at_price :
      (price method : ℕ)
      → r ≡ priced price method
      → IsMarketPrice side tick q price
      → IsPricing c side q tick r
  without_book :
      r ≡ unpriced no_depth
      → c.allow_ltp_fallback ≡ false
      → (q.bid ≡ none) ⊎ (q.ask ≡ none)
      → IsPricing c side q tick r
  worthless :
      r ≡ unpriced invalid_tick_price
      → (side ≡ sell) ⊎ ((q.ask ≡ some 0) ⊎ (q.last_price ≡ 0))
      → IsPricing c side q tick r

amount_known : (c : SlippageConfig) (base tick : ℕ) → (n : ℕ) × (amount c base (some tick) ≡ some n)
unfolding amount
amount_known c base tick =
    elim c.mode
      as (λ m.
        (n : ℕ) × ((elim m as (λ x. Option ℕ) [
          | points ↦ some c.market_order_points
          | basis_points ↦ some (base * c.market_order_bps)
          | ticks ↦ some (c.market_order_ticks * tick)
        ])
          ≡ some n)) [ points ↦ (_, refl) | basis_points ↦ (_, refl) | ticks ↦ (_, refl) ]

is_shallow : (q : Quote) → has_depth q ≡ false → (q.bid ≡ none) ⊎ (q.ask ≡ none)
unfolding has_depth
is_shallow q h = elim (Option-cases q.bid) [
  | inl none_bid ↦ inl none_bid
  | inr (bid, b) ↦ elim (Option-cases q.ask) [
    | inl none_ask ↦ inr none_ask
    | inr (ask, a) ↦ absurd (ground (arith, h, b, a))
  ]
]

-- A purchase that takes a price of zero.
base_zero : (q : Quote) → base_of buy q ≡ 0 → (q.ask ≡ some 0) ⊎ (q.last_price ≡ 0)
base_zero q h = elim (Option-cases q.bid) [
  | inl none_bid ↦ inr (sym (base_shallow buy q (inl none_bid)) ∙ h)
  | inr (bid, b) ↦ elim (Option-cases q.ask) [
    | inl none_ask ↦ inr (sym (base_shallow buy q (inr none_ask)) ∙ h)
    | inr (ask, a) ↦
        let free : ask ≡ 0 = sym (base_deep buy q bid ask b a) ∙ h in inl (a ∙ ap some free)
  ]
]

free_purchase :
    (side : Side) (q : Quote) (tick slippage : ℕ)
    → 0 < tick
    → (round_to_tick (moved_price side (base_of side q) slippage) tick side == 0) ≡ true
    → (side ≡ sell) ⊎ ((q.ask ≡ some 0) ⊎ (q.last_price ≡ 0))
free_purchase sell q tick slippage h zero_price = inl refl
free_purchase buy q tick slippage h zero_price = inr (
    base_zero q (elim (lt_or_zero (base_of buy q)) [
      | inr zero_base ↦ zero_base
      | inl some_base ↦
          let paid : 0 < moved_price buy (base_of buy q) slippage =
            unfold moved_price in omega (arith, some_base) in
          let above = purchase_rounded (moved_price buy (base_of buy q) slippage) tick paid h in
          absurd (ground (arith, above, zero_price))
    ]))

rounded-IsPricing :
    (divide : ℕ → ℕ → ℕ) (c : PaperFillConfig) (side : Side) (q : Quote) (tick slippage method : ℕ)
    → 0 < tick
    → IsPricing c side q tick
        (rounded divide (some tick) side (moved_price side (base_of side q) slippage) method)
unfolding rounded
rounded-IsPricing divide c side q tick slippage method h =
    let exact = moved_price side (base_of side q) slippage in
    let price = round_to_tick exact tick side in
    let r = round_to_tick-IsAdverse side exact tick h in
    if-holds (IsPricing c side q tick) (price == 0) (unpriced invalid_tick_price)
      (priced price method) (λ free. worthless refl (free_purchase side q tick slippage h free))
      (λ paid. at_price price method refl (
        fair_market side tick q price (
          unfold IsFair in
          (ground (arith, paid), r.0, not_better side (base_of side q) slippage tick price r.1))))

-- With a positive tick size, a market order is refused only where the quote lacks a bid or an ask and
-- the settings allow no fall back to the last price, or where it is a sale or the price that a purchase
-- takes is zero; else it is given a price above zero that is a multiple of the tick. Where the quote has
-- a bid and an ask, a purchase pays no less than the ask and a sale receives no more than the bid;
-- where it lacks one, the last price stands for both.
pub market_price-IsPricing :
    (divide : ℕ → ℕ → ℕ) (c : PaperFillConfig) (side : Side) (q : Quote) (rules : InstrumentRules)
    (tick : ℕ)
    → tick_for c rules ≡ some tick
    → 0 < tick
    → IsPricing c side q tick (market_price divide c side q rules)
unfolding market_price slipped
market_price-IsPricing divide c side q rules tick known h =
    let base = base_of side q in
    let (n, slippage) = amount_known c.slippage base tick in
    rw known (
      if-holds (IsPricing c side q tick) (has_depth q || c.allow_ltp_fallback)
        (slipped divide side (some tick) base (extra_of c (some tick) q) (method_of q)
          (amount c.slippage base (some tick)))
        (unpriced no_depth)
        (λ _.
          rw slippage
            (rounded-IsPricing divide c side q tick (n + extra_of c (some tick) q) (method_of q) h))
        (λ refused.
          let parts = neither (has_depth q) c.allow_ltp_fallback refused in
          without_book refl parts.1 (is_shallow q parts.0)))
