-- ===== src/Warmup/Buckets/Applicable.antt =====
-- Which candles occupy a bucket of the session.
use algo_trading.Common.{
  ℕ, ◌+◌, ◌*◌, ◌%◌, ◌/◌, ◌<◌, ◌≡◌, refl, ap, ◌∙◌, Bool, ◌&&◌, List, [], ◌∷◌, map, arith, leb, ◌==◌,
  if-holds, Bool-cases, inl, inr,
}
use algo_trading.Candles.Interval.{second}
use algo_trading.Models.{Result, ok}
use algo_trading.Engine.Session.{MarketSession, is_among, is_trading_day, local_date}
use algo_trading.Warmup.Buckets.{
  starts_of, among_starts, session_bucket_offsets, session_bucket_starts,
  is_applicable_session_bucket,
}
use algo_trading.Warmup.Buckets.Grid.{session_bucket_offsets-grid}

same_offset : (m x y : ℕ) → (m + x * second == m + y * second) ≡ (x == y)
same_offset m x y = elim (Bool-cases (x == y)) [
  | inl hit ↦ ground (arith, hit)
  | inr other ↦ ground (arith, other)
]

is_among-map :
    (m o : ℕ) (l : List ℕ)
    → is_among (m + o * second) (map (λ offset. m + offset * second) l) ≡ is_among o l
unfolding is_among
is_among-map m o [] = refl
is_among-map m o (x ∷ xs) = rw (same_offset m o x, is_among-map m o xs) refl

-- Where a trading day's offsets are known, its starts are those offsets from midnight.
starts_among :
    (s : MarketSession) (d o minutes : ℕ) (l : List ℕ)
    → session_bucket_offsets s minutes ≡ ok l
    → among_starts (s.midnight d + o * second) (session_bucket_starts s d minutes)
      ≡ ok (is_trading_day s (s.midnight d) && is_among o l)
unfolding session_bucket_starts among_starts
starts_among s d o minutes l known =
    if-holds
      (λ (r : Result (List ℕ)).
        among_starts (s.midnight d + o * second) r
        ≡ ok (is_trading_day s (s.midnight d) && is_among o l))
      (is_trading_day s (s.midnight d)) _ _
      (λ on. rw (on, known) (unfold starts_of in ap ok (is_among-map (s.midnight d) o l)))
      (λ off. rw off (unfold is_among in refl))

-- Where the interval is a positive number of minutes, a candle that starts so many seconds after a
-- date's midnight, still on that date, occupies a bucket exactly if it ends one interval later, the date
-- is a trading day, the interval divides the seconds, the candle does not start before the session, and
-- it does not end after the square-off, the two in whole seconds; and the call does not raise.
pub is_applicable_session_bucket-grid :
    (s : MarketSession) (d o end_at minutes : ℕ)
    → 0 < minutes
    → local_date s (s.midnight d + o * second) ≡ d
    → is_applicable_session_bucket s (s.midnight d + o * second) end_at minutes
      ≡ ok (
          (end_at == s.midnight d + o * second + minutes * 60 * second)
          && (is_trading_day s (s.midnight d)
              && ((o % (minutes * 60) == 0)
                  && leb (s.start / second) o
                  && leb (o + minutes * 60) (s.square_off / second))))
unfolding is_applicable_session_bucket
is_applicable_session_bucket-grid s d o end_at minutes h on_date =
    let grid = session_bucket_offsets-grid s minutes o h in
    if-holds
      (λ (r : Result Bool).
        r
        ≡ ok (
            (end_at == s.midnight d + o * second + minutes * 60 * second)
            && (is_trading_day s (s.midnight d)
                && ((o % (minutes * 60) == 0)
                    && leb (s.start / second) o
                    && leb (o + minutes * 60) (s.square_off / second)))))
      (end_at == s.midnight d + o * second + minutes * 60 * second) _ _
      (λ ends.
        rw (ends, on_date)
          (starts_among s d o minutes _ grid.0
            ∙ ap (λ b. ok (is_trading_day s (s.midnight d) && b)) grid.1))
      (λ late. rw late refl)
