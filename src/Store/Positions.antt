-- ===== src/Store/Positions.antt =====
-- `_read_position`, `_upsert_position` and `update_position_marks`. `divide` is the division of a
-- float by a float, on amounts in the price unit.
pub mod Moves
use algo_trading.Common.{
  ℕ, ◌+◌, ◌*◌, Bool, true, false, not, Option, none, some, min, ltb, leb, ◌==◌, is_some, or_else,
  if◌then◌else◌,
}
use algo_trading.Common.Int.{ℤ, pos, negsuc, ◌+ℤ◌, ◌-ℤ◌, ◌*ℤ◌, abs, ltb_ℤ, leb_ℤ}
use algo_trading.Common.Table.{Table, find, put}
use algo_trading.Models.{Side, sign, Fill, PositionStatus, open_status, closed_status}
use algo_trading.Store.Rows.{Day, Slot, same_slot, PositionRow, Database}

-- `COALESCE(a, b)`
abbrev pub coalesce : Option ℕ → Option ℕ → Option ℕ
coalesce (some a) b = some a
coalesce none b = b

unfoldable pub read_position : Slot → Database → Option PositionRow
read_position slot db = find same_slot slot db.positions

-- `quantity == 0`
abbrev pub is_zero : ℤ → Bool
is_zero q = abs q == 0

-- `(a > 0) != (b > 0)`
abbrev pub opposed : ℤ → ℤ → Bool
opposed a b = if ltb_ℤ (pos 0) a then not (ltb_ℤ (pos 0) b) else ltb_ℤ (pos 0) b

abbrev pub direction : ℤ → ℤ
direction q = if ltb_ℤ (pos 0) q then pos 1 else negsuc 0

-- The row that a first fill inserts.
unfoldable pub first_row : ℕ → ℕ → Fill → ℕ → ℤ → Option ℕ → Option ℕ → PositionRow
first_row now runtime_id fill instrument signed stop_price target_price = record {
  runtime_id = runtime_id;
  instrument = instrument;
  quantity = signed;
  average_price = fill.price;
  entry_correlation_id = some fill.correlation_id;
  stop_price = stop_price;
  target_price = target_price;
  highest_favourable = none;
  lowest_favourable = none;
  realised_pnl = pos 0;
  charges = fill.charges;
  status = open_status;
  opened_at = fill.filled_at;
  updated_at = now;
  closed_at = none;
}

-- The profit that a fill against the position realises.
unfoldable pub realised_by : PositionRow → ℤ → ℕ → ℤ
realised_by current signed price =
    direction current.quantity
    *ℤ pos (min (abs signed) (abs current.quantity))
    *ℤ (pos price -ℤ pos current.average_price)

module _ (divide : ℕ → ℕ → ℕ) where
  unfoldable pub weighted : PositionRow → ℤ → ℕ → ℕ
  weighted current signed price =
      divide (current.average_price * abs current.quantity + price * abs signed)
        (abs current.quantity + abs signed)

  -- The row that a later fill leaves.
  unfoldable pub moved_row : ℕ → Fill → ℤ → Option ℕ → Option ℕ → PositionRow → PositionRow
  unfolding weighted realised_by
  moved_row now fill signed stop_price target_price current =
      let new_quantity = current.quantity +ℤ signed in
      let reduces : Bool =
        if is_zero current.quantity then false else opposed current.quantity signed in
      let status : PositionStatus = if is_zero new_quantity then closed_status else open_status in
      record current {
        quantity = new_quantity;
        average_price =
            if reduces
            then current.average_price
            else if is_zero new_quantity
            then current.average_price
            else weighted current signed fill.price;
        realised_pnl =
            if reduces
            then current.realised_pnl +ℤ realised_by current signed fill.price
            else current.realised_pnl;
        charges = current.charges +ℤ fill.charges;
        stop_price = coalesce stop_price current.stop_price;
        target_price = coalesce target_price current.target_price;
        status = status;
        closed_at = if is_zero new_quantity then some now else none;
        updated_at = now;
      }

  upsert_at : ℕ → ℕ → Fill → ℕ → ℤ → Option ℕ → Option ℕ → Option PositionRow → PositionRow × ℤ
  unfolding first_row moved_row
  upsert_at now runtime_id fill instrument signed stop target none =
      (first_row now runtime_id fill instrument signed stop target, pos 0)
  upsert_at now runtime_id fill instrument signed stop target (some current) =
      let row = moved_row now fill signed stop target current in
      (row, row.realised_pnl -ℤ current.realised_pnl)

  -- `_upsert_position`: the position, its `realised_delta` and the new database.
  unfoldable pub upsert_position :
      ℕ → ℕ → Fill → ℕ → ℕ → Side → ℕ → Option ℕ → Option ℕ → Database → PositionRow × ℤ × Database
  unfolding upsert_at read_position sign
  upsert_position now runtime_id fill instrument security_id side trading_date stop target db =
      let slot : Slot = record {
        day = record {
          strategy_id = fill.strategy_id;
          execution_mode = fill.execution_mode;
          trading_date = trading_date;
        };
        security_id = security_id;
      } in
      let signed = sign side *ℤ pos fill.quantity in
      let (row, delta) =
        upsert_at now runtime_id fill instrument signed stop target (read_position slot db) in
      (row, delta, record db { positions = put same_slot slot row db.positions })

marked : ℤ → ℤ → Slot → Table Slot PositionRow → Option PositionRow → Table Slot PositionRow
marked high low slot t none = t
marked high low slot t (some row) = elim row.status [
  | open_status ↦
      put same_slot slot
        (record row { highest_favourable = some high; lowest_favourable = some low }) t
  | closed_status ↦ t
]

unfoldable pub update_position_marks : ℤ → ℤ → Slot → Database → Database
unfolding marked
update_position_marks high low slot db = record db {
  positions = marked high low slot db.positions (find same_slot slot db.positions);
}
