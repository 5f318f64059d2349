-- ===== src/Store/Fills/Ledger.antt =====
-- The daily realised profit of a strategy is the sum over its positions of the day.
use algo_trading.Common.{
  ℕ, ◌≡◌, refl, inl, inr, true, Option, none, some, [], ◌∷◌, Bool-cases, if◌then◌else◌, if-holds,
}
use algo_trading.Common.Int.{ℤ, pos, ◌+ℤ◌, ◌-ℤ◌, int_laws}
use algo_trading.Common.Table.{Table, find, put, find-put_self, find-put_ne}
use algo_trading.Models.{Fill, Side, Result}
use algo_trading.Store.Rows.{
  Day, same_day, same_day_iff, Slot, same_slot, same_slot_iff, PositionRow, StateRow, Database,
}
use algo_trading.Store.Positions.{read_position, upsert_position}
use algo_trading.Store.Positions.Moves.{earlier, upsert_position_lem}
use algo_trading.Store.States.{Save, touched, touch_strategy_state, save_strategy_state, saved}
use algo_trading.Store.Fills.{
  is_recorded, has_order, Apply, day_of, record_fill_quote, insert_fill, apply_new, apply_fill,
}

-- The sum of `realised_pnl` over the positions of a day.
unfoldable pub realised_on : Day → Table Slot PositionRow → ℤ
realised_on d [] = pos 0
realised_on d ((slot, row) ∷ t) =
    (if same_day d slot.day then row.realised_pnl else pos 0) +ℤ realised_on d t

abbrev pub booked_in : Option StateRow → ℤ
booked_in none = pos 0
booked_in (some row) = row.daily_realised_pnl

-- `daily_realised_pnl` of a day, which is 0 while the day has no row.
unfoldable pub booked_on : Day → Table Day StateRow → ℤ
booked_on d t = booked_in (find same_day d t)

unfoldable pub IsReconciled : Day → Database → Type 0
IsReconciled d db = booked_on d db.states ≡ realised_on d db.positions

same_day-slot : (j k : Slot) (d : Day) → same_slot j k ≡ true → same_day d j.day ≡ same_day d k.day
same_day-slot j k d h = rw ((same_slot_iff j k).0 h)

realised_on-put :
    (d : Day) (slot : Slot) (row : PositionRow) (t : Table Slot PositionRow)
    → realised_on d (put same_slot slot row t)
      ≡ realised_on d t
        +ℤ (if same_day d slot.day
            then row.realised_pnl -ℤ earlier (find same_slot slot t)
            else pos 0)
unfolding realised_on find put
realised_on-put d slot row [] = grind int_laws
realised_on-put d slot row ((k, old) ∷ t) = elim (Bool-cases (same_slot slot k)) [
  | inl hit ↦ rw (hit, same_day-slot slot k d hit) (grind int_laws)
  | inr miss ↦ rw miss (grind (int_laws, realised_on-put d slot row t))
]

booked_on-put :
    (d e : Day) (row : StateRow) (t : Table Day StateRow)
    → booked_on d (put same_day e row t)
      ≡ booked_on d t +ℤ (if same_day d e then row.daily_realised_pnl -ℤ booked_on e t else pos 0)
unfolding booked_on
booked_on-put d e row t = elim (Bool-cases (same_day d e)) [
  | inl hit ↦
      let same : d ≡ e = (same_day_iff d e).0 hit in
      rw (hit, same, find-put_self same_day same_day_iff e row t) (grind int_laws)
  | inr miss ↦ rw (miss, find-put_ne same_day same_day_iff d e row t miss) (grind int_laws)
]

touched_delta :
    (now runtime_id : ℕ) (seen : Option ℕ) (delta : ℤ) (o : Option StateRow)
    → (touched now runtime_id seen delta o).daily_realised_pnl -ℤ booked_in o ≡ delta
unfolding touched
touched_delta now runtime_id seen delta none = grind int_laws
touched_delta now runtime_id seen delta (some row) = grind int_laws

saved_delta :
    (now runtime_id : ℕ) (s : Save) (o : Option StateRow)
    → (saved now runtime_id s o).daily_realised_pnl -ℤ booked_in o ≡ pos 0
unfolding saved
saved_delta now runtime_id s none = grind int_laws
saved_delta now runtime_id s (some row) = grind int_laws

touch_strategy_state-booked :
    (now runtime_id : ℕ) (d e : Day) (seen : Option ℕ) (delta : ℤ) (db : Database)
    → booked_on d (touch_strategy_state now runtime_id e seen delta db).states
      ≡ booked_on d db.states +ℤ (if same_day d e then delta else pos 0)
unfolding touch_strategy_state
touch_strategy_state-booked now runtime_id d e seen delta db =
    let o = find same_day e db.states in
    let moved : (touched now runtime_id seen delta o).daily_realised_pnl -ℤ booked_on e db.states
        ≡ delta =
      unfold booked_on in touched_delta now runtime_id seen delta o in
    rw (booked_on-put d e (touched now runtime_id seen delta o) db.states, moved)

-- `save_strategy_state` of any day keeps the daily realised profit of every day equal to the sum
-- over its positions.
pub save_strategy_state-IsReconciled :
    (now runtime_id : ℕ) (e : Day) (s : Save) (d : Day) (db : Database)
    → IsReconciled d db
    → IsReconciled d (save_strategy_state now runtime_id e s db)
unfolding IsReconciled save_strategy_state
save_strategy_state-IsReconciled now runtime_id e s d db h =
    let o = find same_day e db.states in
    let moved : (saved now runtime_id s o).daily_realised_pnl -ℤ booked_on e db.states ≡ pos 0 =
      unfold booked_on in saved_delta now runtime_id s o in
    rw (booked_on-put d e (saved now runtime_id s o) db.states, moved) (grind (int_laws, h))

module _ (divide : ℕ → ℕ → ℕ) where
  upsert_position-realised :
      (now runtime_id : ℕ) (fill : Fill) (instrument security_id : ℕ) (side : Side) (date : ℕ)
      (stop target : Option ℕ) (d : Day) (db : Database)
      → let e : Day = record {
        strategy_id = fill.strategy_id;
        execution_mode = fill.execution_mode;
        trading_date = date;
      } in
        let r =
          upsert_position divide now runtime_id fill instrument security_id side date stop target
            db in
        realised_on d r.2.positions
          ≡ realised_on d db.positions +ℤ (if same_day d e then r.1 else pos 0)
        × r.2.states ≡ db.states
  upsert_position-realised now runtime_id fill instrument security_id side date stop target d db = (
    rw
        (upsert_position_lem divide now runtime_id fill instrument security_id side date stop target
          db)
        (unfold upsert_position read_position in realised_on-put d _ _ db.positions),
    unfold upsert_position in refl,
  )

  apply_new-IsReconciled :
      (now : ℕ) (a : Apply) (d : Day) (db : Database)
      → IsReconciled d db
      → IsReconciled d (apply_new divide now a db).1
  unfolding IsReconciled apply_new day_of
  apply_new-IsReconciled now a d db h =
      let db1 = record_fill_quote a.order_id a.fill (insert_fill divide now a db) in
      let up =
        upsert_position-realised now a.runtime_id a.fill a.instrument a.security_id a.side
          a.trading_date a.stop_price a.target_price d db1 in
      let start : booked_on d db1.states ≡ realised_on d db1.positions =
        unfold record_fill_quote insert_fill in h in
      rw (touch_strategy_state-booked, up.1, start, ← up.0) (unfold touch_strategy_state in refl)

  -- A call of `apply_fill`, whatever it returns, keeps the daily realised profit of every day equal
  -- to the sum of the realised profit over its positions.
  pub apply_fill-IsReconciled :
      (now : ℕ) (a : Apply) (d : Day) (db : Database)
      → IsReconciled d db
      → IsReconciled d (apply_fill divide now a db).1
  unfolding apply_fill
  apply_fill-IsReconciled now a d db h =
      let P : Result PositionRow × Database → Type 0 = λ r. IsReconciled d r.1 in
      if-holds P (is_recorded a.order_id a.fill.broker_fill_id db.fills) (_, db)
        (if has_order a.order_id db.orders then _ else (_, db)) (λ _. h)
        (λ _.
          if-holds P (has_order a.order_id db.orders) (_, (apply_new divide now a db).1) (_, db)
            (λ _. apply_new-IsReconciled now a d db h) (λ _. h))
