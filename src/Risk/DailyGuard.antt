-- ===== src/Risk/DailyGuard.antt =====
-- class DailyRiskGuard of common/engine/daily_guard.py. The text of a halt reason is a constructor
-- for each message.
pub mod Days
use algo_trading.Common.{
  ℕ, ◌+◌, Bool, true, false, ◌&&◌, ◌||◌, Option, none, some, List, [], ◌∷◌, ltb, leb, is_some,
  if◌then◌else◌,
}
use algo_trading.Common.Int.{ℤ, pos, neg, ◌+ℤ◌, ltb_ℤ, leb_ℤ}
use algo_trading.Models.{ExitReason, strategy_exit, manual, daily_loss_limit, target_profit}

pub record Config : Type 0 where
  pub daily_max_loss : ℤ
  pub daily_profit_target : Option ℤ
  pub max_trades : ℤ
  pub kill_switch : Bool

pub data HaltReason : Type 0 where
  kill max_loss max_loss_on_mtm profit_target trades_reached : HaltReason

pub record Guard : Type 0 where
  pub cfg : Config
  pub realised : ℤ
  pub count : ℕ
  pub halt_reason : Option HaltReason
  pub square_off_reason : ExitReason

-- `DailyRiskRecovery`
pub record Recovery : Type 0 where
  pub realised_pnl : ℤ
  pub trade_count : ℕ

unfoldable pub reset : Guard → Guard
reset g = record g {
  realised = pos 0;
  count = 0;
  halt_reason = if g.cfg.kill_switch then some kill else none;
  square_off_reason = if g.cfg.kill_switch then manual else strategy_exit;
}

unfoldable pub new_guard : Config → Guard
unfolding reset
new_guard cfg = reset (record {
  cfg = cfg;
  realised = pos 0;
  count = 0;
  halt_reason = none;
  square_off_reason = strategy_exit;
})

unfoldable pub is_halted : Guard → Bool
is_halted g = is_some g.halt_reason

unfoldable pub halt : HaltReason → ExitReason → Guard → Guard
halt reason square_off_reason g = record g {
  halt_reason = some reason;
  square_off_reason = square_off_reason;
}

-- `cfg.daily_profit_target is not None and self._realised >= cfg.daily_profit_target`
abbrev pub reaches : Option ℤ → ℤ → Bool
reaches none realised = false
reaches (some target) realised = leb_ℤ target realised

-- A call returns the halt reason beside the new state.
unfoldable pub evaluate : Guard → Guard
unfolding halt
evaluate g =
    if ltb_ℤ (pos 0) g.cfg.daily_max_loss && leb_ℤ g.realised (neg g.cfg.daily_max_loss)
    then halt max_loss daily_loss_limit g
    else if reaches g.cfg.daily_profit_target g.realised
    then halt profit_target target_profit g
    else if ltb_ℤ (pos 0) g.cfg.max_trades && leb_ℤ g.cfg.max_trades (pos g.count)
    then halt trades_reached strategy_exit g
    else g

abbrev answer : Guard → Option HaltReason × Guard
answer g = (g.halt_reason, g)

unfoldable pub restore : Guard → Recovery → Option HaltReason × Guard
unfolding evaluate
restore g recovered =
    if is_halted g
    then (none, g)
    else answer
        (evaluate (record g { realised = recovered.realised_pnl; count = recovered.trade_count }))

unfoldable pub register_trade : Guard → ℤ → Option HaltReason × Guard
unfolding evaluate
register_trade g net_pnl =
    if is_halted g
    then (none, g)
    else answer (evaluate (record g { realised = g.realised +ℤ net_pnl; count = g.count + 1 }))

unfoldable pub check_open_mtm : Guard → ℤ → Option HaltReason × Guard
unfolding halt
check_open_mtm g open_pnl =
    if is_halted g || leb_ℤ g.cfg.daily_max_loss (pos 0)
    then (none, g)
    else answer (
        if leb_ℤ (g.realised +ℤ open_pnl) (neg g.cfg.daily_max_loss)
        then halt max_loss_on_mtm daily_loss_limit g
        else g)
