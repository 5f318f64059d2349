-- ===== src/Store/Fills/Replay.antt =====
-- A fill that was applied is recorded, and applying it again changes nothing.
use algo_trading.Common.{
  ℕ, ◌≡◌, refl, true, Option, none, some, List, [], ◌∷◌, ◌++◌, arith, if◌then◌else◌, if-holds,
}
use algo_trading.Common.Table.{find-put_self}
use algo_trading.Models.{Result, ok, err, integrity_error}
use algo_trading.Store.Rows.{same_slot, same_slot_iff, PositionRow, FillRow, Database}
use algo_trading.Store.Positions.{read_position, upsert_position}
use algo_trading.Store.States.{touch_strategy_state}
use algo_trading.Store.Fills.{
  Apply, slot_of, day_of, is_recorded, record_fill_quote, insert_fill, apply_new, apply_fill,
  has_order, or_missing,
}

pub is_recorded-append :
    (j k : ℕ) (rs : List FillRow) (r : FillRow)
    → r.order_id ≡ j
    → r.fill.broker_fill_id ≡ k
    → is_recorded j k (rs ++ r ∷ []) ≡ true
unfolding is_recorded
is_recorded-append j k [] r hj hk = ground arith
is_recorded-append j k (x ∷ xs) r hj hk = ground (arith, is_recorded-append j k xs r hj hk)

or_missing-ok : (o : Option PositionRow) (p : PositionRow) → or_missing o ≡ ok p → o ≡ some p
unfolding or_missing
or_missing-ok none p h = ground (arith, h)
or_missing-ok (some q) p h = ground (arith, h)

module _ (divide : ℕ → ℕ → ℕ) where
  pub apply_new-recorded :
      (now : ℕ) (a : Apply) (db : Database)
      → is_recorded a.order_id a.fill.broker_fill_id (apply_new divide now a db).1.fills ≡ true
        × read_position (slot_of a) (apply_new divide now a db).1
          ≡ some (apply_new divide now a db).0
  unfolding apply_new upsert_position touch_strategy_state record_fill_quote insert_fill
      read_position slot_of day_of
  apply_new-recorded now a db = (
    is_recorded-append _ _ db.fills _ refl refl,
    find-put_self same_slot same_slot_iff (slot_of a) _ db.positions,
  )

  pub replay_lem :
      (now : ℕ) (a : Apply) (p : PositionRow) (db : Database)
      → is_recorded a.order_id a.fill.broker_fill_id db.fills ≡ true
      → read_position (slot_of a) db ≡ some p
      → apply_fill divide now a db ≡ (ok p, db)
  unfolding apply_fill or_missing
  replay_lem now a p db recorded row = rw (recorded, row)

  pub applied_lem :
      (now : ℕ) (a : Apply) (p : PositionRow) (db : Database)
      → (apply_fill divide now a db).0 ≡ ok p
      → is_recorded a.order_id a.fill.broker_fill_id (apply_fill divide now a db).1.fills ≡ true
        × read_position (slot_of a) (apply_fill divide now a db).1 ≡ some p
  unfolding apply_fill
  applied_lem now a p db =
      let P : Result PositionRow × Database → Type 0 = λ r.
        r.0 ≡ ok p
        → is_recorded a.order_id a.fill.broker_fill_id r.1.fills ≡ true
          × read_position (slot_of a) r.1 ≡ some p in
      let fresh = apply_new-recorded now a db in
      if-holds P (is_recorded a.order_id a.fill.broker_fill_id db.fills)
        (or_missing (read_position (slot_of a) db), db)
        (if has_order a.order_id db.orders
          then (ok (apply_new divide now a db).0, (apply_new divide now a db).1)
          else (err integrity_error, db))
        (λ h e. (h, or_missing-ok _ p e))
        (λ _.
          if-holds P (has_order a.order_id db.orders)
            (ok (apply_new divide now a db).0, (apply_new divide now a db).1)
            (err integrity_error, db) (λ _ e. (fresh.0, ground (arith, fresh.1, e)))
            (λ _ e. ground (arith, e)))

  -- After a call of `apply_fill` that returns a position, a call with the same order, broker fill
  -- identifier and row of `positions`, at any moment and whatever its other arguments, returns the
  -- same position and leaves the database as it is.
  pub apply_fill-idempotent :
      (now later : ℕ) (a b : Apply) (p : PositionRow) (db : Database)
      → (apply_fill divide now a db).0 ≡ ok p
      → b.order_id ≡ a.order_id
      → b.fill.broker_fill_id ≡ a.fill.broker_fill_id
      → slot_of b ≡ slot_of a
      → apply_fill divide later b (apply_fill divide now a db).1
        ≡ (ok p, (apply_fill divide now a db).1)
  apply_fill-idempotent now later a b p db h order fill slot =
      let done = applied_lem now a p db h in
      replay_lem later b p _ (rw (order, fill) done.0) (rw slot done.1)
