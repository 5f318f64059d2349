-- ===== src/Broker/Costs.antt =====
-- common/broker/costs.py. A rate is a number of billionths. Products are exact; `divide` is the
-- division that rounds to the smallest price unit.
use algo_trading.Common.{ℕ, ◌+◌, ◌*◌, min, ◌||◌, ◌==◌, if◌then◌else◌}
use algo_trading.Models.{Side, is_buy, Result, ok, err, value_error}

pub record CostRates : Type 0 where
  pub brokerage_per_order : ℕ
  pub exchange_charge_rate : ℕ
  pub stt_rate_on_sell : ℕ
  pub sebi_charge_rate : ℕ
  pub gst_rate : ℕ
  pub stamp_duty_rate_on_buy : ℕ

pub record CostBreakdown : Type 0 where
  pub brokerage : ℕ
  pub exchange_charges : ℕ
  pub stt : ℕ
  pub sebi_charges : ℕ
  pub gst : ℕ
  pub stamp_duty : ℕ

unfoldable pub total : CostBreakdown → ℕ
total c = c.brokerage + c.exchange_charges + c.stt + c.sebi_charges + c.gst + c.stamp_duty

abbrev pub billion : ℕ
billion = 1000000000

module _ (divide : ℕ → ℕ → ℕ) where
  -- The charges of a leg of positive price and quantity.
  unfoldable pub charges_of : CostRates → Side → ℕ → ℕ → CostBreakdown
  charges_of r side price quantity =
      let turnover = price * quantity in
      let brokerage = min r.brokerage_per_order turnover in
      let exchange = turnover * r.exchange_charge_rate in
      let sebi = turnover * r.sebi_charge_rate in
      record {
        brokerage = brokerage;
        exchange_charges = divide exchange billion;
        stt = divide (if is_buy side then 0 else turnover * r.stt_rate_on_sell) billion;
        sebi_charges = divide sebi billion;
        gst = divide ((brokerage * billion + exchange + sebi) * r.gst_rate) (billion * billion);
        stamp_duty =
            divide (if is_buy side then turnover * r.stamp_duty_rate_on_buy else 0) billion;
      }

  unfoldable pub for_leg : CostRates → Side → ℕ → ℕ → Result CostBreakdown
  unfolding charges_of
  for_leg r side price quantity =
      if price == 0 || quantity == 0 then err value_error else ok (charges_of r side price quantity)
