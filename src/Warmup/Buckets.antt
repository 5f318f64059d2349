-- ===== src/Warmup/Buckets.antt =====
-- common/warmup/session_buckets.py over MarketSession. An offset is a number of seconds from midnight
-- and an interval a natural number of minutes; the offset of a zone is the same during a session's day.
pub mod Grid
pub mod Applicable
mod Tests
use algo_trading.Common.{
  ℕ, zero, suc, ◌+◌, ◌-◌, ◌*◌, ◌/◌, Bool, true, false, ◌&&◌, List, [], ◌∷◌, length, map, ltb, ◌==◌,
  if◌then◌else◌,
}
use algo_trading.Models.{Result, ok, err, value_error}
use algo_trading.Candles.Interval.{second}
use algo_trading.Engine.Session.{MarketSession, is_among, is_trading_day, local_date}

-- `range(start, stop, step)`; for a positive step the stop is enough fuel.
unfoldable pub range_from : ℕ → ℕ → ℕ → ℕ → List ℕ
range_from zero start stop step = []
range_from (suc fuel) start stop step =
    let rest = range_from fuel (start + step) stop step in
    if ltb start stop then start ∷ rest else []

unfoldable pub range : ℕ → ℕ → ℕ → List ℕ
unfolding range_from
range start stop step = range_from stop start stop step

-- The first multiple of an interval at an offset or after it.
unfoldable pub first_start : ℕ → ℕ → ℕ
first_start start interval = (start + interval - 1) / interval * interval

-- The offsets between two ends; `first_start > latest_start` with the interval on the other side.
unfoldable pub offsets_between : ℕ → ℕ → ℕ → List ℕ
unfolding range first_start
offsets_between start finish interval =
    if ltb finish (first_start start interval + interval)
    then []
    else range (first_start start interval) (finish - interval + 1) interval

-- `_session_bucket_offsets`
unfoldable pub session_bucket_offsets : MarketSession → ℕ → Result (List ℕ)
unfolding offsets_between
session_bucket_offsets session minutes =
    if minutes == 0
    then err value_error
    else ok (offsets_between (session.start / second) (session.square_off / second) (minutes * 60))

counted : Result (List ℕ) → Result ℕ
counted (err e) = err e
counted (ok offsets) = ok (length offsets)

unfoldable pub session_bucket_count : MarketSession → ℕ → Result ℕ
unfolding counted session_bucket_offsets
session_bucket_count session minutes = counted (session_bucket_offsets session minutes)

unfoldable pub starts_of : ℕ → Result (List ℕ) → Result (List ℕ)
starts_of midnight (err e) = err e
starts_of midnight (ok offsets) = ok (map (λ offset. midnight + offset * second) offsets)

unfoldable pub session_bucket_starts : MarketSession → ℕ → ℕ → Result (List ℕ)
unfolding starts_of session_bucket_offsets is_trading_day
session_bucket_starts session date minutes =
    if is_trading_day session (session.midnight date)
    then starts_of (session.midnight date) (session_bucket_offsets session minutes)
    else ok []

unfoldable among_starts : ℕ → Result (List ℕ) → Result Bool
unfolding is_among
among_starts start_at (err e) = err e
among_starts start_at (ok starts) = ok (is_among start_at starts)

unfoldable pub is_applicable_session_bucket : MarketSession → ℕ → ℕ → ℕ → Result Bool
unfolding among_starts session_bucket_starts local_date
is_applicable_session_bucket session start_at end_at minutes =
    if end_at == start_at + minutes * 60 * second
    then among_starts start_at (session_bucket_starts session (local_date session start_at) minutes)
    else ok false
