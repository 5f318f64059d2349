-- ===== src/Engine/Tests.antt =====
-- The theorems on the authority and on the position manager, applied to concrete calls.
use algo_trading.Common.{ℕ, ◌+◌, ◌*◌, ◌≤◌, ◌≡◌, refl, none, List, [], ◌∷◌, ◌++◌}
use algo_trading.Common.Int.{ℤ, pos, ◌+ℤ◌, ◌-ℤ◌}
use algo_trading.Common.Dict.{lookup}
use algo_trading.Models.{paper, buy, sell, ce, square_off, ok}
use algo_trading.Risk.SquareOff.{Policy, force_square_off_before_expiry}
use algo_trading.Store.Rows.{Day, Database}
use algo_trading.Engine.Authority.{start, is_due}
use algo_trading.Engine.Authority.Runs.{
  Call, ask, finish, run, attempts_on, run-writes, run-restart,
}
use algo_trading.Engine.Trades.{OptionContract, OpenPosition, Trade, net_pnl}
use algo_trading.Engine.Positions.{
  PositionManager, Gateway, new_manager, open_position, close, close_all,
}
use algo_trading.Engine.Positions.Books.{proceeds, close-open_position}
use algo_trading.Engine.Positions.Closing.{IsFilling, Closed, close_all-Closed}

abbrev noon_policy : Policy
noon_policy = record {
  entry_cutoff = 100;
  square_off_at = 200;
  zone = λ t. t;
  expiry_policy = force_square_off_before_expiry;
  square_off_before_expiry_days = pos 1;
}

abbrev monday : Day
monday = record { strategy_id = 1; execution_mode = paper; trading_date = 20 }

abbrev empty : Database
empty = record {
  signals = [];
  intents = [];
  errors = [];
  orders = [];
  fills = [];
  fill_quotes = [];
  positions = [];
  states = [];
}

-- Two questions after the square-off time, the second after an attempt that did not finish.
abbrev calls : List Call
calls = ask 300 300 ∷ ask 310 310 ∷ finish 320 320 ∷ ask 330 330 ∷ []

run-writes_example :
    let w = run calls (start noon_policy 9 monday none empty) in
    w.authority.writes ≤ 2 × attempts_on monday w.db ≡ attempts_on monday empty + w.authority.writes
run-writes_example = run-writes noon_policy 9 monday none empty calls

run-restart_example :
    let w = run calls (start noon_policy 9 monday none empty) in
    is_due 340 (start noon_policy 10 monday none w.db) ≡ is_due 340 w
run-restart_example = run-restart noon_policy 9 monday none empty calls 10 340

abbrev contract : OptionContract
contract = record {
  symbol = 1;
  security_id = 5;
  strike = 23500;
  option_type = ce;
  expiry = 40;
  lot_size = 50;
}

-- It fills at the reference price for a charge of 20, and counts its orders.
abbrev at_reference : Gateway ℕ
at_reference = record {
  place = λ s c l r t stop target g. (
    ok (record { fill_price = r; charges = pos 20; charges_breakdown = (1, pos 20) ∷ [] }),
    g + 1,
  );
}

abbrev keep : ℤ → ℤ
keep x = x

close-open_position_example :
    let (p, m1, h1) =
      open_position at_reference keep contract buy 100 300 none 0 none none (new_manager 2) 0 in
    let (r, m2, h2) = close at_reference keep 5 110 400 square_off none 0 m1 h1 in
    (t : Trade) × r ≡ ok t
    × net_pnl t ≡ proceeds buy 100 110 (2 * 50) -ℤ (pos 20 +ℤ pos 20)
    × m2.trades ≡ [] ++ t ∷ []
    × h2 ≡ 2
    × ((k : ℕ) → lookup k m2.positions ≡ none)
    × ((k : ℕ) → lookup k m2.entry_charges ≡ none)
unfolding new_manager lookup
close-open_position_example =
    close-open_position at_reference keep contract buy 100 110 300 400 none none 0 0 none none
      square_off (new_manager 2) 0 1 2
      (record { fill_price = 100; charges = pos 20; charges_breakdown = (1, pos 20) ∷ [] })
      (record { fill_price = 110; charges = pos 20; charges_breakdown = (1, pos 20) ∷ [] }) refl
      refl refl refl

abbrev bought : OpenPosition
bought = record {
  contract = contract;
  side = buy;
  lots = 2;
  entry_price = 100;
  entry_time = 300;
  quantity = 100;
  last_price = 100;
  max_favorable_pnl = pos 0;
  max_adverse_pnl = pos 0;
}

abbrev two_open : PositionManager
two_open = record {
  lots = 2;
  positions = (5, bought) ∷ (6, record bought { side = sell }) ∷ [];
  entry_charges = (5, pos 20) ∷ (6, pos 20) ∷ [];
  entry_breakdown = [];
  entry_regime = [];
  entry_regime_features = [];
  trades = [];
}

at_reference-IsFilling : IsFilling at_reference
at_reference-IsFilling = record {
  fill = λ s c l r t stop target g.
      (record { fill_price = r; charges = pos 20; charges_breakdown = (1, pos 20) ∷ [] }, g + 1);
  fills = λ s c l r t stop target g. refl;
}

close_all-Closed_example :
    Closed at_reference keep two_open
      (close_all at_reference keep ((5, 120) ∷ []) 400 square_off two_open 0)
close_all-Closed_example =
    close_all-Closed at_reference keep ((5, 120) ∷ []) 400 square_off two_open 0
      at_reference-IsFilling ((refl, tt), (tt, tt))
