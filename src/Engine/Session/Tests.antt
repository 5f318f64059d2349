-- ===== src/Engine/Session/Tests.antt =====
-- Runs of a session's calendar.
use algo_trading.Common.{◌+◌, ◌*◌, ◌≡◌, ◌≤◌, refl, true, false, [], ◌∷◌, arith}
use algo_trading.Candles.Interval.{day, second}
use algo_trading.Models.{ok}
use algo_trading.Engine.Session.{MarketSession, new_session, is_open, can_enter, prior_trading_day}
use algo_trading.Engine.Session.Calendar.{
  sessions_in, IsCalendar, Reached, prior_trading_day-Reached,
}

-- From 09:15 to 15:20 with entries to 14:45; Monday the 26th of January 1970 is a holiday.
abbrev session : MarketSession
session = record {
  zone = λ moment. moment;
  midnight = λ d. d * day;
  start = 33300 * second;
  finish = 53100 * second;
  square_off = 55200 * second;
  holidays = 25 ∷ [];
}

accepted : new_session session ≡ ok session
unfolding new_session
accepted = refl

-- At 15:00 of the 27th the market is open and entries are over.
afternoon :
    (is_open session (26 * day + 54000 * second) ≡ true)
    × (can_enter session (26 * day + 54000 * second) ≡ false)
unfolding is_open can_enter
afternoon = (refl, refl)

-- The session before the 27th, past the holiday and the weekend, is Friday the 23rd.
friday : prior_trading_day session 26 1 ≡ 22
unfolding prior_trading_day
friday = refl

session-IsCalendar : IsCalendar session
session-IsCalendar d = omega arith

enough_sessions : 2 ≤ sessions_in session 26 24
unfolding sessions_in
enough_sessions = omega arith

prior_trading_day-Reached_example : Reached session 26 2 (prior_trading_day session 26 2)
prior_trading_day-Reached_example =
    prior_trading_day-Reached session 26 2 session-IsCalendar (omega arith) (omega arith)
      enough_sessions
