-- ===== src/Execution/Lifecycle/Submitting.antt =====
-- When `handle_signal` reaches the broker, and with what.
use mathlib.Core.Path.{subst}
use algo_trading.Common.{
  ℕ, ◌≡◌, ◌⊎◌, refl, ap, ◌∙◌, Bool-cases, inl, inr, true, false, Option, none, some, List, [], ◌∷◌,
  ◌++◌, arith,
}
use algo_trading.Models.{Mode, market, allowed, Error, Result, ok, err}
use algo_trading.Store.Rows.{OrderIntent, IntentRow, Database}
use algo_trading.Store.Intents.{
  is_signalled, is_correlated, record_signal, next_sequence_number, is_sequenced, reserve_intent,
}
use algo_trading.Store.Intents.Sequence.{
  next_unused, reserve_intent_next, reserve_intent_taken, reserve_intent-correlated,
}
use algo_trading.Broker.{Quote, Broker}
use algo_trading.Broker.Quotes.{QuoteBook, latest_in}
use algo_trading.Execution.Lifecycle.{
  OrderLifecycle, Request, quote_for, intent_of, reserved, correlated, signalled, handle_signal,
}
use algo_trading.Execution.Lifecycle.Kept.{reserved-intents}
use algo_trading.Execution.Lifecycle.Once.{duplicate_lem}

-- The order that a signal asks for, under an identifier: a market order of the signal's instrument,
-- side and quantity, for the strategy, the runtime and the mode of the lifecycle.
pub record IsOrderOf (l : OrderLifecycle) (q : Request) (id : ℕ) (i : OrderIntent) : Type 0 where
  pub correlation_id : i.correlation_id ≡ id
  pub security_id : i.security_id ≡ q.signal.security_id
  pub instrument : i.instrument ≡ q.signal.instrument
  pub side : i.side ≡ q.signal.side
  pub quantity : i.quantity ≡ q.signal.quantity
  pub order_type : i.order_type ≡ market
  pub limit_price : i.limit_price ≡ none
  pub trigger_price : i.trigger_price ≡ none
  pub strategy_id : i.strategy_id ≡ l.strategy_id
  pub runtime_id : i.runtime_id ≡ l.runtime_id
  pub execution_mode : i.execution_mode ≡ l.execution_mode
  pub trading_date : i.trading_date ≡ q.trading_date
  pub product_type : i.product_type ≡ l.product_type
  pub created_at : i.created_at ≡ q.now
  pub config_fingerprint : i.config_fingerprint ≡ l.config_fingerprint
  pub risk_decision : i.risk_decision ≡ allowed

-- The quote of a signal: the newest of the book, or one made of the signal's reference price.
pub record IsQuoteOf (quotes : Option QuoteBook) (q : Request) (v : Quote) : Type 0 where
  pub newest : (w : Quote) → latest_in quotes q.signal.security_id ≡ some w → v ≡ w
  pub made :
      latest_in quotes q.signal.security_id ≡ none
      → (v.security_id ≡ q.signal.security_id)
        × (v.last_price ≡ q.signal.reference_price)
        × (v.bid ≡ none)
        × (v.ask ≡ none)

intent_of-IsOrderOf :
    (l : OrderLifecycle) (q : Request) (signal_id sequence id : ℕ)
    → IsOrderOf l q id (intent_of l q signal_id sequence id)
unfolding intent_of
intent_of-IsOrderOf l q signal_id sequence id = record {
  correlation_id = refl;
  security_id = refl;
  instrument = refl;
  side = refl;
  quantity = refl;
  order_type = refl;
  limit_price = refl;
  trigger_price = refl;
  strategy_id = refl;
  runtime_id = refl;
  execution_mode = refl;
  trading_date = refl;
  product_type = refl;
  created_at = refl;
  config_fingerprint = refl;
  risk_decision = refl;
}

quote_for-IsQuoteOf :
    (quotes : Option QuoteBook) (q : Request) → IsQuoteOf quotes q (quote_for quotes q.signal)
unfolding quote_for
quote_for-IsQuoteOf quotes q = record {
  newest = λ w found. rw found refl;
  made = λ missing. rw missing (refl, refl, refl, refl);
}

module _ (divide : ℕ → ℕ → ℕ) {B : Type 0} (broker : Broker B)
    (correlate : Mode → ℕ → ℕ → ℕ → ℕ → Result ℕ) (quotes : Option QuoteBook) where
  -- A call that does not reach the broker, and why.
  abbrev pub IsHeld : OrderLifecycle → Request → Database → Type 0
  IsHeld l q db =
      let sequence = next_sequence_number l.strategy_id l.execution_mode q.trading_date db in
      let built = correlate l.execution_mode l.runtime_id l.strategy_id q.trading_date sequence in
      (is_signalled q.signal db.signals ≡ true)
      ⊎ (((e : Error) × (built ≡ err e))
          ⊎ ((id : ℕ) × (built ≡ ok id) × (is_correlated id db.intents ≡ true)))

  -- A call that reaches it once, for an order whose identifier was free and is taken afterwards.
  pub record IsSent (l : OrderLifecycle) (q : Request) (before : List IntentRow) (db1 : Database)
      (b b1 : B) : Type 0 where
    pub id : ℕ
    pub free : is_correlated id before ≡ false
    pub taken : is_correlated id db1.intents ≡ true
    pub intent : OrderIntent
    pub order : IsOrderOf l q id intent
    pub quote : Quote
    pub quoted : IsQuoteOf quotes q quote
    pub unused :
        is_sequenced intent.strategy_id intent.execution_mode intent.trading_date
          intent.sequence_number before
        ≡ false
    pub submitted : b1 ≡ (broker.submit intent quote b).1

  reserved_broker :
      (l : OrderLifecycle) (q : Request) (i : OrderIntent) (r : Result ℕ × Database) (b : B) (n : ℕ)
      → r.0 ≡ ok n
      → (reserved divide broker correlate quotes l q i r b).2
        ≡ (broker.submit i (quote_for quotes q.signal) b).1
  unfolding reserved
  reserved_broker l q i (ok m, db) b n e = refl
  reserved_broker l q i (err x, db) b n e = absurd (ground (arith, e))

  -- The reservation of an intent with the next sequence number, and what follows it.
  reserved_free :
      (l : OrderLifecycle) (q : Request) (signal_id id : ℕ) (db : Database) (b : B)
      → is_correlated id db.intents ≡ false
      → let sequence = next_sequence_number l.strategy_id l.execution_mode q.trading_date db in
        let i = intent_of l q signal_id sequence id in
        let r =
          reserved divide broker correlate quotes l q i (reserve_intent l.session_id i db) b in
        IsSent l q db.intents r.1 b r.2
  reserved_free l q signal_id id db b free =
      let sequence = next_sequence_number l.strategy_id l.execution_mode q.trading_date db in
      let i = intent_of l q signal_id sequence id in
      let (n, done) =
        reserve_intent_next l.session_id i db (unfold intent_of in free)
          (unfold intent_of in refl) in
      let same : i.correlation_id ≡ id = unfold intent_of in refl in
      record {
        id = id;
        free = free;
        taken =
            ap (is_correlated id) (
              reserved-intents divide broker correlate quotes l q i
                (reserve_intent l.session_id i db) b)
            ∙ subst (λ k. is_correlated k (reserve_intent l.session_id i db).1.intents ≡ true) same
                (reserve_intent-correlated l.session_id i db n done);
        intent = i;
        order = intent_of-IsOrderOf l q signal_id sequence id;
        quote = quote_for quotes q.signal;
        quoted = quote_for-IsQuoteOf quotes q;
        unused = unfold intent_of in next_unused l.strategy_id l.execution_mode q.trading_date db;
        submitted = reserved_broker l q i (reserve_intent l.session_id i db) b n done;
      }

  reserved_taken :
      (l : OrderLifecycle) (q : Request) (signal_id sequence id : ℕ) (db : Database) (b : B)
      → is_correlated id db.intents ≡ true
      → let i = intent_of l q signal_id sequence id in
        (reserved divide broker correlate quotes l q i (reserve_intent l.session_id i db) b).2 ≡ b
  unfolding reserved
  reserved_taken l q signal_id sequence id db b taken =
      rw
        (reserve_intent_taken l.session_id (intent_of l q signal_id sequence id) db
          (unfold intent_of in taken))
        refl

  -- What the identifier that is built of a new signal leads to.
  correlated_lem :
      (l : OrderLifecycle) (q : Request) (signal_id : ℕ) (built : Result ℕ) (db : Database) (b : B)
      → let sequence = next_sequence_number l.strategy_id l.execution_mode q.trading_date db in
        let r = correlated divide broker correlate quotes l q signal_id sequence built db b in
        ((r.2 ≡ b)
          × (((e : Error) × (built ≡ err e))
              ⊎ ((id : ℕ) × (built ≡ ok id) × (is_correlated id db.intents ≡ true))))
        ⊎ IsSent l q db.intents r.1 b r.2
  unfolding correlated
  correlated_lem l q signal_id (err e) db b = inl (refl, inl (e, refl))
  correlated_lem l q signal_id (ok id) db b = elim (Bool-cases (is_correlated id db.intents)) [
    | inl taken ↦ inl (reserved_taken l q signal_id _ id db b taken, inr (id, refl, taken))
    | inr free ↦ inr (reserved_free l q signal_id id db b free)
  ]

  new_signal :
      (l : OrderLifecycle) (q : Request) (db : Database) (b : B)
      → is_signalled q.signal db.signals ≡ false
      → let sequence = next_sequence_number l.strategy_id l.execution_mode q.trading_date db in
        let built = correlate l.execution_mode l.runtime_id l.strategy_id q.trading_date sequence in
        let r = handle_signal divide broker correlate quotes l q db b in
        ((r.2 ≡ b)
          × (((e : Error) × (built ≡ err e))
              ⊎ ((id : ℕ) × (built ≡ ok id) × (is_correlated id db.intents ≡ true))))
        ⊎ IsSent l q db.intents r.1 b r.2
  unfolding handle_signal signalled record_signal next_sequence_number
  new_signal l q db b new =
      rw new (correlated_lem l q _ _ (record db { signals = db.signals ++ _ ∷ [] }) b)

  -- A call of `handle_signal`, whatever it returns or raises, either leaves the broker as it is, and
  -- then the signal is recorded already, or no identifier is built for the next sequence number, or
  -- an intent has it; or else the signal is not recorded yet, and the call leaves the broker as one
  -- `submit` does, of the market order that the signal asks for, for its instrument's newest quote, or
  -- for one of its reference price where the book has none. No intent has the order's
  -- identifier before the call, nor its sequence number on the day, and one has the identifier after
  -- it.
  pub handle_signal-IsSent :
      (l : OrderLifecycle) (q : Request) (db : Database) (b : B)
      → let r = handle_signal divide broker correlate quotes l q db b in
        ((r.2 ≡ b) × IsHeld l q db)
        ⊎ ((is_signalled q.signal db.signals ≡ false) × IsSent l q db.intents r.1 b r.2)
  handle_signal-IsSent l q db b = elim (Bool-cases (is_signalled q.signal db.signals)) [
    | inl known ↦
        inl (ap (λ r. r.2) (duplicate_lem divide broker correlate quotes l q db b known), inl known)
    | inr new ↦ elim (new_signal l q db b new) [
      | inl (same, why) ↦ inl (same, inr why)
      | inr sent ↦ inr (new, sent)
    ]
  ]
