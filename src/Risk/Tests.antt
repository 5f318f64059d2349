-- ===== src/Risk/Tests.antt =====
-- The theorems on the daily guard and the square-off policy, applied to a day.
use algo_trading.Common.{◌≡◌, refl, ◌↔◌, true, false, none, some, List, [], ◌∷◌}
use algo_trading.Common.Int.{pos, negsuc, ◌+ℤ◌}
use algo_trading.Models.{ok, daily_loss_limit, strategy_exit}
use algo_trading.Risk.DailyGuard.{Config, Guard, max_loss, is_halted, register_trade}
use algo_trading.Risk.DailyGuard.Days.{
  Event, trade, mark, run, Within, register_trade-Within, IsAllowed, run-IsAllowed,
}
use algo_trading.Risk.SquareOff.{
  Policy, force_square_off_before_expiry, pending, new_policy, trigger_at,
}
use algo_trading.Risk.SquareOff.Decision.{Decides, trigger_at-Decides}

abbrev limits : Config
limits = record {
  daily_max_loss = pos 500;
  daily_profit_target = some (pos 900);
  max_trades = pos 3;
  kill_switch = false;
}

abbrev losing : Guard
losing = record {
  cfg = limits;
  realised = negsuc 299;
  count = 1;
  halt_reason = none;
  square_off_reason = strategy_exit;
}

abbrev stopped : Guard
stopped = record losing { halt_reason = some max_loss; square_off_reason = daily_loss_limit }

losing-open : is_halted losing ≡ false
unfolding is_halted
losing-open = refl

stopped-halted : is_halted stopped ≡ true
unfolding is_halted
stopped-halted = refl

register_trade-Within_example :
    let g = (register_trade losing (negsuc 199)).1 in
    (g.realised ≡ negsuc 299 +ℤ negsuc 199)
    × (g.count ≡ 2)
    × ((is_halted g ≡ false) ↔ Within limits (negsuc 299 +ℤ negsuc 199) 2)
register_trade-Within_example = register_trade-Within losing (negsuc 199) losing-open

-- A loss, a mark of the open position, and a gain that reaches no limit.
abbrev a_day : List Event
a_day = trade (negsuc 99) ∷ mark (negsuc 49) ∷ trade (pos 300) ∷ []

run-IsAllowed_example :
    (is_halted (run a_day losing) ≡ false) ↔ IsAllowed limits (negsuc 299) 1 a_day
run-IsAllowed_example = run-IsAllowed a_day losing losing-open

abbrev policy : Policy
policy = record {
  entry_cutoff = 100;
  square_off_at = 200;
  zone = λ t. t;
  expiry_policy = force_square_off_before_expiry;
  square_off_before_expiry_days = pos 1;
}

policy-valid : new_policy policy ≡ ok policy
unfolding new_policy
policy-valid = refl

trigger_at-Decides_example :
    Decides policy 250 pending (some 30) (trigger_at policy 250 pending (some 30))
trigger_at-Decides_example = trigger_at-Decides policy 250 pending (some 30) policy-valid
