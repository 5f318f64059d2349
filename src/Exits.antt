-- ===== src/Exits.antt =====
-- The price exits of common/exit and the hard stop of common/engine/risk_managers.py. Points and
-- rupees are amounts of the smallest price unit; a disabled stop is none.
pub mod Peak
pub mod Closes
pub mod Combined
pub mod Composite
pub mod Engines
mod Tests
use algo_trading.Common.{ℕ, Bool, true, false, Option, none, some, ◌*◌, if◌then◌else◌}
use algo_trading.Common.Int.{ℤ, pos, neg, ◌-ℤ◌, ◌*ℤ◌, ltb_ℤ, leb_ℤ}
use algo_trading.Models.{
  Side, buy, sell, opposite, ExitReason, stop_loss, Result, ok, err, value_error,
}
use algo_trading.Engine.Trades.{OpenPosition}

-- The points that the position is ahead.
unfoldable pub points_ahead : Side → ℕ → ℕ → ℤ
points_ahead buy entry_price last_price = pos last_price -ℤ pos entry_price
points_ahead sell entry_price last_price = pos entry_price -ℤ pos last_price

-- StopLossExit.should_exit
unfoldable pub stop_loss_hit : ℤ → OpenPosition → Bool
unfolding points_ahead
stop_loss_hit points p = leb_ℤ points (points_ahead (opposite p.side) p.entry_price p.last_price)

-- FixedTargetExit.should_exit
unfoldable pub target_reached : ℤ → OpenPosition → Bool
unfolding points_ahead
target_reached points p = leb_ℤ points (points_ahead p.side p.entry_price p.last_price)

-- TrailingExit
pub record Trailing : Type 0 where
  pub trail_points : ℤ
  pub peak_profit : ℤ

unfoldable pub new_trailing : ℤ → Trailing
new_trailing trail_points = record { trail_points = trail_points; peak_profit = pos 0 }

unfoldable pub reset : Trailing → Trailing
reset t = record t { peak_profit = pos 0 }

-- The peak, where there is one.
unfoldable pub snapshot : Trailing → Option ℤ
snapshot t = if ltb_ℤ (pos 0) t.peak_profit then some t.peak_profit else none

unfoldable pub restore : Option ℤ → Trailing → Trailing
restore none t = t
restore (some peak) t = record t { peak_profit = peak }

-- The answer of `should_exit` at a profit, and the state after it.
unfoldable pub should_exit_at : ℤ → Trailing → Bool × Trailing
should_exit_at profit t =
    let peak : ℤ = if ltb_ℤ t.peak_profit profit then profit else t.peak_profit in
    (
      if leb_ℤ peak (pos 0) then false else leb_ℤ t.trail_points (peak -ℤ profit),
      record t { peak_profit = peak },
    )

unfoldable pub should_exit : OpenPosition → Trailing → Bool × Trailing
unfolding should_exit_at points_ahead
should_exit p t = should_exit_at (points_ahead p.side p.entry_price p.last_price) t

-- HardStopRiskManager
pub record HardStop : Type 0 where
  pub stop_per_lot : Option ℤ
  pub lots : ℕ
  pub armed_stop : Option ℤ

unfoldable pub new_hard_stop : Option ℤ → Result HardStop
new_hard_stop none = ok (record { stop_per_lot = none; lots = 0; armed_stop = none })
new_hard_stop (some stop) =
    if leb_ℤ stop (pos 0)
    then err value_error
    else ok (record { stop_per_lot = some stop; lots = 0; armed_stop = none })

-- `reset` of the hard stop
unfoldable pub disarm : HardStop → HardStop
disarm h = record h { lots = 0; armed_stop = none }

-- `new_position`
unfoldable pub arm : ℕ → HardStop → HardStop
arm lots h = record h {
  lots = lots;
  armed_stop = elim h.stop_per_lot [ none ↦ none | some stop ↦ some (stop *ℤ pos lots) ];
}

unfoldable pub on_pnl : ℤ → HardStop → Option ExitReason
on_pnl pnl h = elim h.armed_stop [
  | none ↦ none
  | some stop ↦ if leb_ℤ pnl (neg stop) then some stop_loss else none
]
