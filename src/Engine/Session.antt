-- ===== src/Engine/Session.antt =====
-- class MarketSession of common/engine/session.py. A moment is an instant in microseconds, a date a
-- number of days since 1970-01-01, a Thursday; the zone database gives the local wall clock, with
-- midnight at multiples of a day, and the instant of a date's local midnight. A walk that would come
-- to a date before 1970 stays at the first one, where the code's goes on. The times of a session are
-- given parsed.
pub mod Calendar
mod Tests
use algo_trading.Common.{
  ℕ, zero, suc, ◌+◌, ◌-◌, ◌*◌, ◌/◌, ◌%◌, Bool, true, false, not, ◌&&◌, ◌||◌, List, [], ◌∷◌, ltb,
  leb, ◌==◌, if◌then◌else◌,
}
use algo_trading.Models.{Result, ok, err, value_error}
use algo_trading.Candles.Interval.{day}

pub record MarketSession : Type 0 where
  pub zone : ℕ → ℕ
  pub midnight : ℕ → ℕ
  pub start : ℕ
  pub finish : ℕ
  pub square_off : ℕ
  pub holidays : List ℕ

unfoldable pub new_session : MarketSession → Result MarketSession
new_session s = if ltb s.start s.finish && leb s.finish s.square_off then ok s else err value_error

unfoldable pub local_date : MarketSession → ℕ → ℕ
local_date s moment = s.zone moment / day

unfoldable pub local_time : MarketSession → ℕ → ℕ
local_time s moment = s.zone moment % day

unfoldable pub is_among : ℕ → List ℕ → Bool
is_among d [] = false
is_among d (x ∷ xs) = (d == x) || is_among d xs

unfoldable pub is_holiday : MarketSession → ℕ → Bool
unfolding local_date is_among
is_holiday s moment = is_among (local_date s moment) s.holidays

-- Monday is 0.
unfoldable pub weekday : ℕ → ℕ
weekday d = (d + 3) % 7

-- `_is_trading_day`
unfoldable pub is_trading_date : MarketSession → ℕ → Bool
unfolding weekday is_among
is_trading_date s d = ltb (weekday d) 5 && not (is_among d s.holidays)

unfoldable pub is_trading_day : MarketSession → ℕ → Bool
unfolding is_trading_date local_date
is_trading_day s moment = is_trading_date s (local_date s moment)

unfoldable pub is_open : MarketSession → ℕ → Bool
unfolding is_trading_date local_date local_time
is_open s moment =
    is_trading_date s (local_date s moment)
    && leb s.start (local_time s moment)
    && leb (local_time s moment) s.square_off

unfoldable pub can_enter : MarketSession → ℕ → Bool
unfolding is_trading_date local_date local_time
can_enter s moment =
    is_trading_date s (local_date s moment)
    && leb s.start (local_time s moment)
    && ltb (local_time s moment) s.finish

-- The walk over at most so many dates before a date, with the sessions that remain.
unfoldable pub walk_back : MarketSession → ℕ → ℕ → ℕ → ℕ
unfolding is_trading_day
walk_back s zero d remaining = d
walk_back s (suc hops) d remaining =
    let next = walk_back s hops (d - 1) remaining in
    let counted = walk_back s hops (d - 1) (remaining - 1) in
    if is_trading_day s (s.midnight (d - 1))
    then if remaining - 1 == 0 then d - 1 else counted
    else next

unfoldable pub prior_trading_day : MarketSession → ℕ → ℕ → ℕ
unfolding walk_back
prior_trading_day s d sessions_back =
    walk_back s (sessions_back * 5 + 14) d (if leb 1 sessions_back then sessions_back else 1)
