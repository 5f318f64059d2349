-- ===== src/Execution/Lifecycle/Kept.antt =====
-- Whatever follows them, the signal and the intent that a call recorded are kept.
use algo_trading.Common.{
  ℕ, ◌≡◌, refl, ap, ◌∙◌, Option, none, some, List, [], ◌∷◌, if◌then◌else◌, if-holds,
}
use algo_trading.Models.{Mode, Fill, OrderStatus, Result, ok, err}
use algo_trading.Store.Rows.{SignalRow, IntentRow, OrderIntent, PositionRow, Database}
use algo_trading.Store.Intents.{Order, record_error}
use algo_trading.Store.Intents.Kept.{kept_rows, reserve_intent-signals, record_submission-kept}
use algo_trading.Store.Fills.{
  Apply, apply_fill, apply_new, insert_fill, record_fill_quote, is_recorded, has_order,
}
use algo_trading.Store.Positions.{upsert_position}
use algo_trading.Store.States.{touch_strategy_state}
use algo_trading.Broker.{Submission, accepted, refused, failed, Broker}
use algo_trading.Broker.Quotes.{QuoteBook}
use algo_trading.Execution.Lifecycle.{
  OrderLifecycle, Request, apply_of, kept, result_of, refused_with, apply_fills, accepted_in,
  answered, reserved, correlated, signalled, rejected_order,
}

result_of-kept :
    (id : ℕ) (order : Order) (r : Result (Option PositionRow) × Database)
    → kept_rows (result_of id order r).1 ≡ kept_rows r.1
unfolding result_of
result_of-kept id order (ok p, db) = refl
result_of-kept id order (err e, db) = refl

refused_with-kept :
    (id : ℕ) (order : Order) (reason : ℕ) (r : Result ℕ × Database)
    → kept_rows (refused_with id order reason r).1 ≡ kept_rows r.1
unfolding refused_with
refused_with-kept id order reason (ok p, db) = refl
refused_with-kept id order reason (err e, db) = refl

module _ (divide : ℕ → ℕ → ℕ) where
  apply_fill-kept :
      (now : ℕ) (a : Apply) (db : Database)
      → kept_rows (apply_fill divide now a db).1 ≡ kept_rows db
  unfolding apply_fill apply_new touch_strategy_state upsert_position record_fill_quote insert_fill
  apply_fill-kept now a db =
      let P : Result PositionRow × Database → Type 0 = λ r. kept_rows r.1 ≡ kept_rows db in
      if-holds P (is_recorded a.order_id a.fill.broker_fill_id db.fills) (_, db)
        (if has_order a.order_id db.orders then (_, (apply_new divide now a db).1) else (_, db))
        (λ _. refl)
        (λ _.
          if-holds P (has_order a.order_id db.orders) (_, (apply_new divide now a db).1) (_, db)
            (λ _. refl) (λ _. refl))

  -- A raise ends the loop, and a position goes on.
  continued-kept :
      (r : Result PositionRow) (db1 db2 : Database) (rest : Result (Option PositionRow))
      (s : List SignalRow × List IntentRow)
      → kept_rows db1 ≡ s
      → kept_rows db2 ≡ s
      → kept_rows
          (elim r as (λ x. Result (Option PositionRow) × Database) [
            | ok p1 ↦ (rest, db2)
            | err e ↦ (err e, db1)
          ]).1
        ≡ s
  continued-kept (ok p) db1 db2 rest s h1 h2 = h2
  continued-kept (err e) db1 db2 rest s h1 h2 = h1

  apply_fills-kept :
      (l : OrderLifecycle) (q : Request) (id : ℕ) (status : OrderStatus) (fs : List Fill)
      (p : Option PositionRow) (db : Database)
      → kept_rows (apply_fills divide l q id status fs p db).1 ≡ kept_rows db
  unfolding apply_fills
  apply_fills-kept l q id status [] p db = refl
  apply_fills-kept l q id status (f ∷ fs) p db =
      let a = apply_of l q id status f in
      let r = apply_fill divide q.now a db in
      let first = apply_fill-kept q.now a db in
      continued-kept r.0 r.1 _ _ (kept_rows db) first
        (apply_fills-kept l q id status fs (kept r.0) r.1 ∙ first)

  accepted_in-kept :
      (l : OrderLifecycle) (q : Request) (id : ℕ) (order : Order) (r : Result ℕ × Database)
      → kept_rows (accepted_in divide l q id order r).1 ≡ kept_rows r.1
  unfolding accepted_in
  accepted_in-kept l q id order (err e, db) = refl
  accepted_in-kept l q id order (ok n, db) =
      result_of-kept id order _ ∙ apply_fills-kept l q n order.status order.fills none db

  answered-kept :
      (l : OrderLifecycle) (q : Request) (id intent_id : ℕ) (s : Submission) (db : Database)
      → kept_rows (answered divide l q id intent_id s db).1 ≡ kept_rows db
  unfolding answered record_error
  answered-kept l q id intent_id (accepted order) db =
      accepted_in-kept l q id order _
      ∙ record_submission-kept q.now q.reported intent_id order l.runtime_id db
  answered-kept l q id intent_id (refused reason) db =
      refused_with-kept id (rejected_order l q id reason) reason _
      ∙ record_submission-kept q.now q.reported intent_id _ l.runtime_id _
  answered-kept l q id intent_id (failed e) db = refl

  module _ {B : Type 0} (broker : Broker B) (correlate : Mode → ℕ → ℕ → ℕ → ℕ → Result ℕ)
      (quotes : Option QuoteBook) where
    reserved-signals :
        (l : OrderLifecycle) (q : Request) (i : OrderIntent) (r : Result ℕ × Database) (b : B)
        → (reserved divide broker correlate quotes l q i r b).1.signals ≡ r.1.signals
    unfolding reserved
    reserved-signals l q i (err e, db) b = refl
    reserved-signals l q i (ok n, db) b = ap (λ x. x.0) (answered-kept l q i.correlation_id n _ db)

    pub reserved-intents :
        (l : OrderLifecycle) (q : Request) (i : OrderIntent) (r : Result ℕ × Database) (b : B)
        → (reserved divide broker correlate quotes l q i r b).1.intents ≡ r.1.intents
    unfolding reserved
    reserved-intents l q i (err e, db) b = refl
    reserved-intents l q i (ok n, db) b = ap (λ x. x.1) (answered-kept l q i.correlation_id n _ db)

    correlated-signals :
        (l : OrderLifecycle) (q : Request) (signal_id sequence : ℕ) (r : Result ℕ) (db : Database)
        (b : B)
        → (correlated divide broker correlate quotes l q signal_id sequence r db b).1.signals
          ≡ db.signals
    unfolding correlated
    correlated-signals l q signal_id sequence (err e) db b = refl
    correlated-signals l q signal_id sequence (ok id) db b =
        reserved-signals l q _ _ b ∙ reserve_intent-signals l.session_id _ db

    pub signalled-signals :
        (l : OrderLifecycle) (q : Request) (r : Option ℕ × Database) (b : B)
        → (signalled divide broker correlate quotes l q r b).1.signals ≡ r.1.signals
    unfolding signalled
    signalled-signals l q (none, db) b = refl
    signalled-signals l q (some n, db) b = correlated-signals l q n _ _ db b
