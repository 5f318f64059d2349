-- ===== src/Store/Intents/Sequence.antt =====
-- A sequence number that is next is free.
use algo_trading.Common.{ℕ, ◌<◌, ◌≡◌, refl, true, false, ◌||◌, List, [], ◌∷◌, ◌++◌, arith, if-holds}
use algo_trading.Models.{Mode, Result, ok, err, integrity_error}
use algo_trading.Store.Rows.{OrderIntent, IntentRow, Database}
use algo_trading.Store.Intents.{
  last_sequence_number, next_sequence_number, is_correlated, is_sequenced, reserve_intent,
}

is_sequenced_above :
    (strategy_id : ℕ) (mode : Mode) (date n : ℕ) (rs : List IntentRow)
    → last_sequence_number strategy_id mode date rs < n
    → is_sequenced strategy_id mode date n rs ≡ false
unfolding is_sequenced last_sequence_number
is_sequenced_above strategy_id mode date n [] h = refl
is_sequenced_above strategy_id mode date n (r ∷ rs) h =
    ground (arith, h, is_sequenced_above strategy_id mode date n rs)

-- No intent of the day has the next sequence number.
pub next_unused :
    (strategy_id : ℕ) (mode : Mode) (date : ℕ) (db : Database)
    → is_sequenced strategy_id mode date (next_sequence_number strategy_id mode date db) db.intents
      ≡ false
unfolding next_sequence_number
next_unused strategy_id mode date db =
    is_sequenced_above strategy_id mode date _ db.intents (omega arith)

-- An intent with the next sequence number of its day and a correlation identifier that no intent
-- has is reserved: `reserve_intent` returns a number and does not raise.
pub reserve_intent_next :
    (session_id : ℕ) (i : OrderIntent) (db : Database)
    → is_correlated i.correlation_id db.intents ≡ false
    → i.sequence_number ≡ next_sequence_number i.strategy_id i.execution_mode i.trading_date db
    → (n : ℕ) × (reserve_intent session_id i db).0 ≡ ok n
unfolding reserve_intent next_sequence_number
reserve_intent_next session_id i db fresh next =
    let free : is_sequenced i.strategy_id i.execution_mode i.trading_date i.sequence_number
          db.intents
        ≡ false =
      rw next (
        is_sequenced_above i.strategy_id i.execution_mode i.trading_date _ db.intents
          (omega arith)) in
    rw (fresh, free) (_, refl)

is_correlated-append :
    (id : ℕ) (rs : List IntentRow) (r : IntentRow)
    → r.intent.correlation_id ≡ id
    → is_correlated id (rs ++ r ∷ []) ≡ true
unfolding is_correlated
is_correlated-append id [] r h = ground (arith, h)
is_correlated-append id (x ∷ xs) r h = ground (arith, is_correlated-append id xs r h)

-- The reservation leaves the intent's identifier taken.
pub reserve_intent-correlated :
    (session_id : ℕ) (i : OrderIntent) (db : Database) (n : ℕ)
    → (reserve_intent session_id i db).0 ≡ ok n
    → is_correlated i.correlation_id (reserve_intent session_id i db).1.intents ≡ true
unfolding reserve_intent
reserve_intent-correlated session_id i db n =
    let taken =
      is_correlated i.correlation_id db.intents
      || is_sequenced i.strategy_id i.execution_mode i.trading_date i.sequence_number db.intents in
    if-holds
      (λ (r : Result ℕ × Database). r.0 ≡ ok n → is_correlated i.correlation_id r.1.intents ≡ true)
      taken (err integrity_error, db) (ok _, record db { intents = db.intents ++ _ ∷ [] })
      (λ _ made. absurd (ground (arith, made)))
      (λ _ _. is_correlated-append i.correlation_id db.intents _ refl)

-- An identifier that is taken is refused.
pub reserve_intent_taken :
    (session_id : ℕ) (i : OrderIntent) (db : Database)
    → is_correlated i.correlation_id db.intents ≡ true
    → reserve_intent session_id i db ≡ (err integrity_error, db)
unfolding reserve_intent
reserve_intent_taken session_id i db h = rw h
