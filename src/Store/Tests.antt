-- ===== src/Store/Tests.antt =====
-- The theorems on fills, positions and states, applied to a small database.
use algo_trading.Common.{ℕ, ◌+◌, ◌/◌, ◌≡◌, refl, true, false, none, some, [], ◌∷◌, arith, ◌==◌}
use algo_trading.Common.Int.{pos, negsuc, ◌+ℤ◌, ◌-ℤ◌, ◌*ℤ◌}
use algo_trading.Common.Table.{find, put}
use algo_trading.Models.{paper, Fill, sell, acknowledged, filled, open_status, ok, sign}
use algo_trading.Store.Rows.{Day, same_slot, same_day, PositionRow, OrderRow, Database}
use algo_trading.Store.Positions.{moved_row}
use algo_trading.Store.Positions.Moves.{open_profit, moved_row-reduces, moved_row-reverses}
use algo_trading.Store.States.{Save}
use algo_trading.Store.Fills.{
  Apply, slot_of, is_recorded, has_order, apply_new, apply_fill, filled_quantity,
}
use algo_trading.Store.Fills.Replay.{apply_fill-idempotent}
use algo_trading.Store.Fills.Totals.{IsTotalled, apply_fill-IsTotalled}
use algo_trading.Store.Fills.Ledger.{IsReconciled, booked_on, realised_on, apply_fill-IsReconciled}

abbrev divide : ℕ → ℕ → ℕ
divide a b = a / b

abbrev fill_of : ℕ → ℕ → ℕ → Fill
fill_of id quantity price = record {
  correlation_id = 7;
  broker_fill_id = id;
  strategy_id = 1;
  execution_mode = paper;
  quantity = quantity;
  price = price;
  filled_at = 1000;
  reference_price = none;
  slippage_amount = none;
  latency_ms = none;
  fill_method = none;
  charges = pos 20;
  latency_applied = some true;
  quote_bid = some 99;
  quote_ask = some 101;
  quote_age_ms = some 5;
}

abbrev order : OrderRow
order = record {
  id = 3;
  intent_id = 2;
  correlation_id = 7;
  runtime_id = 9;
  strategy_id = 1;
  execution_mode = paper;
  broker_order_id = some 4;
  status = acknowledged;
  filled_quantity = 0;
  average_fill_price = none;
  rejection_reason = none;
  submitted_at = 900;
  updated_at = 900;
}

abbrev monday : Day
monday = record { strategy_id = 1; execution_mode = paper; trading_date = 20 }

abbrev long_row : PositionRow
long_row = record {
  runtime_id = 9;
  instrument = 50;
  quantity = pos 10;
  average_price = 100;
  entry_correlation_id = some 6;
  stop_price = none;
  target_price = none;
  highest_favourable = none;
  lowest_favourable = none;
  realised_pnl = pos 0;
  charges = pos 20;
  status = open_status;
  opened_at = 800;
  updated_at = 800;
  closed_at = none;
}

-- An acknowledged order, and a long position of ten.
abbrev held : Database
held = record {
  signals = [];
  intents = [];
  errors = [];
  orders = order ∷ [];
  fills = [];
  fill_quotes = [];
  positions = (record { day = monday; security_id = 5 }, long_row) ∷ [];
  states = [];
}

-- The order sells four at 110.
abbrev sale : Apply
sale = record {
  order_id = 3;
  runtime_id = 9;
  fill = fill_of 1 4 110;
  order_status = filled;
  instrument = 50;
  security_id = 5;
  side = sell;
  trading_date = 20;
  stop_price = none;
  target_price = none;
  last_candle_end_at = none;
}

abbrev sold_row : PositionRow
sold_row = record long_row {
  quantity = pos 6;
  realised_pnl = pos 40;
  charges = pos 40;
  updated_at = 1001;
}

sold : (apply_fill divide 1001 sale held).0 ≡ ok sold_row
unfolding apply_fill apply_new slot_of is_recorded has_order moved_row find put same_slot sign ◌+ℤ◌
    ◌-ℤ◌ ◌*ℤ◌
sold = refl

apply_fill-idempotent_example :
    apply_fill divide 1002 sale (apply_fill divide 1001 sale held).1
    ≡ (ok sold_row, (apply_fill divide 1001 sale held).1)
apply_fill-idempotent_example =
    apply_fill-idempotent divide 1001 1002 sale sale sold_row held sold refl refl refl

sale-new : is_recorded 3 1 held.fills ≡ false
unfolding is_recorded
sale-new = refl

order-known : has_order 3 held.orders ≡ true
unfolding has_order
order-known = refl

apply_fill-IsTotalled_example :
    let after = (apply_fill divide 1001 sale held).1 in
    IsTotalled 3 after
    × filled_quantity 3 after.fills ≡ filled_quantity 3 held.fills + 4
    × ((j : ℕ)
        → (3 == j) ≡ false
        → filled_quantity j after.fills ≡ filled_quantity j held.fills
          × (IsTotalled j held → IsTotalled j after))
apply_fill-IsTotalled_example = apply_fill-IsTotalled divide 1001 sale held sale-new order-known

held-IsReconciled : IsReconciled monday held
unfolding IsReconciled booked_on realised_on find same_day ◌+ℤ◌
held-IsReconciled = refl

apply_fill-IsReconciled_example : IsReconciled monday (apply_fill divide 1001 sale held).1
apply_fill-IsReconciled_example =
    apply_fill-IsReconciled divide 1001 sale monday held held-IsReconciled

-- What the day has booked after the sale.
booked_after_sale : booked_on monday (apply_fill divide 1001 sale held).1.states ≡ pos 40
unfolding apply_fill apply_new is_recorded has_order moved_row find put same_slot same_day sign ◌+ℤ◌
    ◌-ℤ◌ ◌*ℤ◌ booked_on
booked_after_sale = refl

abbrev blocking : Save
blocking = record {
  last_candle_end_at = none;
  square_off_state = none;
  entries_blocked = some true;
  payload = none;
  increment_square_off_attempts = true;
}

moved_row-reduces_example :
    let after = moved_row divide 1001 (fill_of 1 4 110) (negsuc 3) none none long_row in
    after.realised_pnl +ℤ open_profit after 110 ≡ pos 0 +ℤ open_profit long_row 110
moved_row-reduces_example =
    moved_row-reduces divide 1001 (fill_of 1 4 110) (negsuc 3) none none long_row (omega arith) refl
      (omega arith)

moved_row-reverses_example :
    let after = moved_row divide 1001 (fill_of 1 14 110) (negsuc 13) none none long_row in
    after.realised_pnl ≡ pos 0 +ℤ open_profit long_row 110
    × open_profit after 110 ≡ (pos 10 +ℤ negsuc 13) *ℤ (pos 110 -ℤ pos 100)
moved_row-reverses_example =
    moved_row-reverses divide 1001 (fill_of 1 14 110) (negsuc 13) none none long_row (omega arith)
      refl (omega arith)
