-- ===== src/Warmup/Buckets/Tests.antt =====
-- Runs of the buckets of a session from 09:15 to 15:20.
use algo_trading.Common.{◌+◌, ◌*◌, ◌/◌, ◌%◌, ◌≡◌, refl, ◌&&◌, [], ◌∷◌, arith, leb, ◌==◌}
use algo_trading.Candles.Interval.{day, second}
use algo_trading.Models.{ok, err, value_error}
use algo_trading.Engine.Session.{MarketSession, is_trading_day, local_date}
use algo_trading.Warmup.Buckets.{
  session_bucket_count, session_bucket_starts, is_applicable_session_bucket,
}
use algo_trading.Warmup.Buckets.Applicable.{is_applicable_session_bucket-grid}

abbrev session : MarketSession
session = record {
  zone = λ moment. moment;
  midnight = λ d. d * day;
  start = 33300 * second;
  finish = 53100 * second;
  square_off = 55200 * second;
  holidays = 20 ∷ [];
}

-- Five whole hours fit, from 10:00 to 15:00.
five_hours : session_bucket_count session 60 ≡ ok 5
unfolding session_bucket_count
five_hours = refl

-- A number of minutes that is not positive raises.
no_minutes : session_bucket_count session 0 ≡ err value_error
unfolding session_bucket_count
no_minutes = refl

-- The third of January 1970 is a Saturday.
no_session : session_bucket_starts session 2 60 ≡ ok []
unfolding session_bucket_starts
no_session = refl

-- The candle from 10:00 to 11:00 of the sixth of January 1970.
is_applicable_session_bucket-grid_example :
    is_applicable_session_bucket session (5 * day + 36000 * second) (5 * day + 39600 * second) 60
    ≡ ok (
        (5 * day + 39600 * second == 5 * day + 36000 * second + 60 * 60 * second)
        && (is_trading_day session (5 * day)
            && ((36000 % (60 * 60) == 0)
                && leb (33300 * second / second) 36000
                && leb (36000 + 60 * 60) (55200 * second / second))))
is_applicable_session_bucket-grid_example =
    is_applicable_session_bucket-grid session 5 36000 (5 * day + 39600 * second) 60 (omega arith)
      (unfold local_date in refl)
