-- ===== src/Execution/Lifecycle/Once.antt =====
-- A candle reaches the broker once: what `handle_signal` records of a signal is never lost, and it
-- stops a second call, also of a process that was restarted.
use algo_trading.Common.{
  ℕ, ◌≡◌, refl, ◌∙◌, true, Option, none, some, List, [], ◌∷◌, ◌++◌, arith, if-holds,
}
use algo_trading.Models.{Mode, same_mode, Result, ok}
use algo_trading.Store.Rows.{SignalRow, Database}
use algo_trading.Store.Intents.{Signal, is_signalled, record_signal}
use algo_trading.Broker.{Broker}
use algo_trading.Broker.Quotes.{QuoteBook}
use algo_trading.Execution.Lifecycle.{
  duplicate_signal, OrderLifecycle, Request, signalled, handle_signal,
}
use algo_trading.Execution.Lifecycle.Kept.{signalled-signals}

-- Two signals of one strategy, mode and instrument, for one candle end.
pub record IsSameKey (s t : Signal) : Type 0 where
  pub strategy : t.strategy_id ≡ s.strategy_id
  pub mode : t.execution_mode ≡ s.execution_mode
  pub instrument : t.instrument ≡ s.instrument
  pub candle : t.candle.end_at ≡ s.candle.end_at

same_mode_refl : (m : Mode) → same_mode m m ≡ true
same_mode_refl m = ground arith

is_signalled-key :
    (s t : Signal) (rs : List SignalRow) → IsSameKey s t → is_signalled t rs ≡ is_signalled s rs
unfolding is_signalled
is_signalled-key s t [] k = refl
is_signalled-key s t (r ∷ rs) k =
    simp (k.strategy, k.mode, k.instrument, k.candle, is_signalled-key s t rs k)

is_signalled-append :
    (s : Signal) (rs : List SignalRow) (r : SignalRow)
    → r.strategy_id ≡ s.strategy_id
    → r.execution_mode ≡ s.execution_mode
    → r.instrument ≡ s.instrument
    → r.candle.end_at ≡ s.candle.end_at
    → is_signalled s (rs ++ r ∷ []) ≡ true
unfolding is_signalled
is_signalled-append s [] r strategy mode instrument candle =
    ground (arith, strategy, mode, instrument, candle, same_mode_refl s.execution_mode)
is_signalled-append s (x ∷ xs) r strategy mode instrument candle =
    ground (arith, is_signalled-append s xs r strategy mode instrument candle)

-- `record_signal` leaves the signal recorded.
record_signal-recorded :
    (session_id runtime_id : ℕ) (s : Signal) (date : ℕ) (fingerprint : Option ℕ) (db : Database)
    → is_signalled s (record_signal session_id runtime_id s date fingerprint db).1.signals ≡ true
unfolding record_signal
record_signal-recorded session_id runtime_id s date fingerprint db =
    let P : Option ℕ × Database → Type 0 = λ r. is_signalled s r.1.signals ≡ true in
    if-holds P (is_signalled s db.signals) (none, db)
      (some _, record db { signals = db.signals ++ _ ∷ [] }) (λ h. h)
      (λ _. is_signalled-append s db.signals _ refl refl refl refl)

module _ (divide : ℕ → ℕ → ℕ) where
  module _ {B : Type 0} (broker : Broker B) (correlate : Mode → ℕ → ℕ → ℕ → ℕ → Result ℕ)
      (quotes : Option QuoteBook) where
    recorded_lem :
        (l : OrderLifecycle) (q : Request) (db : Database) (b : B)
        → is_signalled q.signal (handle_signal divide broker correlate quotes l q db b).1.signals
          ≡ true
    unfolding handle_signal
    recorded_lem l q db b =
        let r =
          record_signal l.session_id l.runtime_id q.signal q.trading_date l.config_fingerprint db in
        rw (signalled-signals divide broker correlate quotes l q r b) (
          record_signal-recorded l.session_id l.runtime_id q.signal q.trading_date
            l.config_fingerprint db)

    pub duplicate_lem :
        (l : OrderLifecycle) (q : Request) (db : Database) (b : B)
        → is_signalled q.signal db.signals ≡ true
        → handle_signal divide broker correlate quotes l q db b ≡ (
          ok (record {
            correlation_id = none;
            order = none;
            position = none;
            skipped_reason = some duplicate_signal;
          }),
          db,
          b,
        )
    unfolding handle_signal signalled
    duplicate_lem l q db b h =
        let known : record_signal l.session_id l.runtime_id q.signal q.trading_date
              l.config_fingerprint db
            ≡ (none, db) =
          unfold record_signal in rw h in
        rw known

    -- After a call of `handle_signal`, whatever it returned or raised, a call for a signal of the same
    -- strategy, mode, instrument and candle end skips it as a duplicate, with the database and the
    -- broker as they are. The second call may be of another process, at any moment and of any date.
    pub handle_signal-once :
        (l k : OrderLifecycle) (q r : Request) (db : Database) (b : B)
        → IsSameKey q.signal r.signal
        → let (first, db1, b1) = handle_signal divide broker correlate quotes l q db b in
          handle_signal divide broker correlate quotes k r db1 b1 ≡ (
            ok (record {
              correlation_id = none;
              order = none;
              position = none;
              skipped_reason = some duplicate_signal;
            }),
            db1,
            b1,
          )
    handle_signal-once l k q r db b key =
        duplicate_lem k r _ _ (is_signalled-key q.signal r.signal _ key ∙ recorded_lem l q db b)
