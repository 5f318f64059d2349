-- ===== src/Store/Positions/Moves.antt =====
-- What a fill does to a position.
use algo_trading.Common.{ℕ, ◌≡◌, ◌≢◌, ◌≤◌, min, refl, true, false, Option, none, some, arith}
use algo_trading.Common.Int.{ℤ, pos, negsuc, abs, ◌*ℤ◌, *ℤ-+ℤ, ◌+ℤ◌, ◌-ℤ◌, int_laws}
use algo_trading.Models.{Fill, Side}
use algo_trading.Store.Rows.{Slot, PositionRow, Database}
use algo_trading.Store.Positions.{
  realised_by, opposed, direction, is_zero, first_row, moved_row, upsert_at, upsert_position,
  read_position,
}

-- The realised profit of a row that may be missing.
abbrev pub earlier : Option PositionRow → ℤ
earlier none = pos 0
earlier (some row) = row.realised_pnl

upsert_at_delta :
    (divide : ℕ → ℕ → ℕ) (now runtime_id : ℕ) (fill : Fill) (instrument : ℕ) (signed : ℤ)
    (stop target : Option ℕ) (o : Option PositionRow)
    → let r = upsert_at divide now runtime_id fill instrument signed stop target o in
      r.1 ≡ r.0.realised_pnl -ℤ earlier o
unfolding upsert_at first_row
upsert_at_delta divide now runtime_id fill instrument signed stop target none = grind int_laws
upsert_at_delta divide now runtime_id fill instrument signed stop target (some row) = refl

-- `_upsert_position` reports what it adds to the realised profit of the position, and writes that
-- position.
pub upsert_position_lem :
    (divide : ℕ → ℕ → ℕ) (now runtime_id : ℕ) (fill : Fill) (instrument security_id : ℕ)
    (side : Side) (date : ℕ) (stop target : Option ℕ) (db : Database)
    → let slot : Slot = record {
      day = record {
        strategy_id = fill.strategy_id;
        execution_mode = fill.execution_mode;
        trading_date = date;
      };
      security_id = security_id;
    } in
      let r =
        upsert_position divide now runtime_id fill instrument security_id side date stop target
          db in
      r.1 ≡ r.0.realised_pnl -ℤ earlier (read_position slot db)
unfolding upsert_position
upsert_position_lem divide now runtime_id fill instrument security_id side date stop target db =
    upsert_at_delta divide now runtime_id fill instrument _ stop target (read_position _ db)

-- The profit that is open at a price.
unfoldable pub open_profit : PositionRow → ℕ → ℤ
open_profit row price = row.quantity *ℤ (pos price -ℤ pos row.average_price)

-- What a fill against a position of at least its size closes cancels the fill.
closed_lem :
    (q s : ℤ)
    → abs q ≢ 0
    → opposed q s ≡ true
    → abs s ≤ abs q
    → direction q *ℤ pos (min (abs s) (abs q)) +ℤ s ≡ pos 0
unfolding ◌*ℤ◌
closed_lem (pos q) (pos s) h o c = grind (int_laws, h, o, c)
closed_lem (pos q) (negsuc s) h o c = grind (int_laws, h, o, c)
closed_lem (negsuc q) (pos s) h o c = grind (int_laws, h, o, c)
closed_lem (negsuc q) (negsuc s) h o c = grind (int_laws, h, o, c)

cancels : (a s q d r : ℤ) → a +ℤ s ≡ pos 0 → r +ℤ a *ℤ d +ℤ (q +ℤ s) *ℤ d ≡ r +ℤ q *ℤ d
cancels a s q d r h =
    let zero : a *ℤ d +ℤ s *ℤ d ≡ pos 0 = rw (← *ℤ-+ℤ a s d, h) (unfold ◌*ℤ◌ in grind int_laws) in
    rw (*ℤ-+ℤ q s d) (grind (int_laws, zero))

is_zero-no : (q : ℤ) → abs q ≢ 0 → is_zero q ≡ false
is_zero-no q h = ground (arith, h)

-- A fill against a position that is no larger closes all of it.
whole_lem : (q s : ℤ) → abs q ≤ abs s → direction q *ℤ pos (min (abs s) (abs q)) ≡ q
unfolding ◌*ℤ◌
whole_lem (pos q) s c = grind (int_laws, c)
whole_lem (negsuc q) s c = grind (int_laws, c)

module _ (divide : ℕ → ℕ → ℕ) where
  -- A fill against a position that is not empty, where the fill is no larger than the position,
  -- valued at the price of the fill: realised and open profit together stay the same.
  pub moved_row-reduces :
      (now : ℕ) (fill : Fill) (signed : ℤ) (stop target : Option ℕ) (row : PositionRow)
      → abs row.quantity ≢ 0
      → opposed row.quantity signed ≡ true
      → abs signed ≤ abs row.quantity
      → let after = moved_row divide now fill signed stop target row in
        after.realised_pnl +ℤ open_profit after fill.price
        ≡ row.realised_pnl +ℤ open_profit row fill.price
  unfolding moved_row realised_by open_profit
  moved_row-reduces now fill signed stop target row held against covered =
      rw (is_zero-no row.quantity held, against)
        (cancels _ signed row.quantity _ row.realised_pnl
          (closed_lem row.quantity signed held against covered))

  -- A fill against a position that is not empty and no larger than the fill realises the whole open
  -- profit at its price. The open profit at that price is then the quantity that is left times the
  -- distance from the average price of the position that the fill closed.
  pub moved_row-reverses :
      (now : ℕ) (fill : Fill) (signed : ℤ) (stop target : Option ℕ) (row : PositionRow)
      → abs row.quantity ≢ 0
      → opposed row.quantity signed ≡ true
      → abs row.quantity ≤ abs signed
      → let after = moved_row divide now fill signed stop target row in
        after.realised_pnl ≡ row.realised_pnl +ℤ open_profit row fill.price
        × open_profit after fill.price
          ≡ (row.quantity +ℤ signed) *ℤ (pos fill.price -ℤ pos row.average_price)
  unfolding moved_row realised_by open_profit
  moved_row-reverses now fill signed stop target row held against larger =
      rw (is_zero-no row.quantity held, against, whole_lem row.quantity signed larger) (refl, refl)
