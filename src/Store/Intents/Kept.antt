-- ===== src/Store/Intents/Kept.antt =====
-- The signals and the intents that the later writes of an order keep.
use algo_trading.Common.{ℕ, ◌≡◌, refl, ◌||◌, Option, none, some, List, [], ◌∷◌, ◌++◌, if-holds}
use algo_trading.Models.{Result, ok, err, integrity_error}
use algo_trading.Store.Rows.{SignalRow, IntentRow, OrderIntent, Database}
use algo_trading.Store.Intents.{
  Order, is_correlated, is_sequenced, is_ordered, reserve_intent, submitted_in, order_of,
  record_submission,
}

pub reserve_intent-signals :
    (session_id : ℕ) (i : OrderIntent) (db : Database)
    → (reserve_intent session_id i db).1.signals ≡ db.signals
unfolding reserve_intent
reserve_intent-signals session_id i db =
    let P : Result ℕ × Database → Type 0 = λ r. r.1.signals ≡ db.signals in
    if-holds P
      (is_correlated i.correlation_id db.intents
        || is_sequenced i.strategy_id i.execution_mode i.trading_date i.sequence_number db.intents)
      (err integrity_error, db) (ok _, record db { intents = db.intents ++ _ ∷ [] }) (λ _. refl)
      (λ _. refl)

-- The signals and the intents, which the rest of a call leaves alone.
abbrev pub kept_rows : Database → List SignalRow × List IntentRow
kept_rows db = (db.signals, db.intents)

submitted_in-kept :
    (now reported intent_id : ℕ) (order : Order) (runtime_id : ℕ) (db : Database) (o : Option ℕ)
    → kept_rows (submitted_in now reported intent_id order runtime_id db o).1 ≡ kept_rows db
unfolding submitted_in
submitted_in-kept now reported intent_id order runtime_id db (some id) = refl
submitted_in-kept now reported intent_id order runtime_id db none =
    let P : Result ℕ × Database → Type 0 = λ r. kept_rows r.1 ≡ kept_rows db in
    if-holds P (is_ordered order.correlation_id db.orders) (err integrity_error, db)
      (ok _, record db { orders = db.orders ++ _ ∷ [] }) (λ _. refl) (λ _. refl)

pub record_submission-kept :
    (now reported intent_id : ℕ) (order : Order) (runtime_id : ℕ) (db : Database)
    → kept_rows (record_submission now reported intent_id order runtime_id db).1 ≡ kept_rows db
unfolding record_submission
record_submission-kept now reported intent_id order runtime_id db =
    submitted_in-kept now reported intent_id order runtime_id db (order_of intent_id db.orders)
