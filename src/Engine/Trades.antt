-- ===== src/Engine/Trades.antt =====
-- The option contract, the open position and the trade of common/engine/models.py.
use algo_trading.Common.{ℕ, ◌*◌, Option, if◌then◌else◌}
use algo_trading.Common.Int.{ℤ, pos, ◌-ℤ◌, ◌*ℤ◌, ltb_ℤ}
use algo_trading.Common.Dict.{Dict}
use algo_trading.Models.{Side, buy, sell, OptionType, ExitReason}

pub record OptionContract : Type 0 where
  pub symbol : ℕ
  pub security_id : ℕ
  pub strike : ℕ
  pub option_type : OptionType
  pub expiry : ℕ
  pub lot_size : ℕ

pub record OpenPosition : Type 0 where
  pub contract : OptionContract
  pub side : Side
  pub lots : ℕ
  pub entry_price : ℕ
  pub entry_time : ℕ
  pub quantity : ℕ
  pub last_price : ℕ
  pub max_favorable_pnl : ℤ
  pub max_adverse_pnl : ℤ

-- The constructor with `__post_init__`.
unfoldable pub new_position : OptionContract → Side → ℕ → ℕ → ℕ → OpenPosition
new_position contract side lots entry_price entry_time = record {
  contract = contract;
  side = side;
  lots = lots;
  entry_price = entry_price;
  entry_time = entry_time;
  quantity = lots * contract.lot_size;
  last_price = entry_price;
  max_favorable_pnl = pos 0;
  max_adverse_pnl = pos 0;
}

-- The profit of a quantity on a side, from an entry price to a price.
unfoldable pub profit : Side → ℕ → ℕ → ℕ → ℤ
profit buy entry_price price quantity = (pos price -ℤ pos entry_price) *ℤ pos quantity
profit sell entry_price price quantity = (pos entry_price -ℤ pos price) *ℤ pos quantity

unfoldable pub unrealised_pnl : OpenPosition → ℤ
unfolding profit
unrealised_pnl p = profit p.side p.entry_price p.last_price p.quantity

unfoldable pub update_price : ℕ → OpenPosition → OpenPosition
unfolding unrealised_pnl
update_price price p =
    let moved = record p { last_price = price } in
    let pnl = unrealised_pnl moved in
    record moved {
      max_favorable_pnl = if ltb_ℤ p.max_favorable_pnl pnl then pnl else p.max_favorable_pnl;
      max_adverse_pnl = if ltb_ℤ pnl p.max_adverse_pnl then pnl else p.max_adverse_pnl;
    }

-- The fields that the manager sets; it leaves the others at their defaults.
pub record Trade : Type 0 where
  pub contract : OptionContract
  pub side : Side
  pub lots : ℕ
  pub quantity : ℕ
  pub entry_price : ℕ
  pub exit_price : ℕ
  pub entry_time : ℕ
  pub exit_time : ℕ
  pub exit_reason : ExitReason
  pub gross_pnl : ℤ
  pub charges : ℤ
  pub charges_breakdown : Dict ℤ
  pub mfe : ℤ
  pub mae : ℤ
  pub entry_regime : Option ℕ
  pub exit_regime : Option ℕ
  pub session_tags : ℕ
  pub entry_regime_features : ℕ

unfoldable pub net_pnl : Trade → ℤ
net_pnl t = t.gross_pnl -ℤ t.charges
