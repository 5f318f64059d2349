-- ===== src/Engine/Positions.antt =====
-- class PositionManager of common/engine/positions.py. The gateway is a parameter: a state of its own, and the two orders it
-- takes. Charges are amounts of money; `round` is Python's rounding to four places, and the order
-- of the numbers of the charges' names is the order of the names.
pub mod Books
pub mod Closing
use algo_trading.Common.{
  ℕ, ◌+◌, ◌*◌, ◌≡◌, Bool, true, false, Option, none, some, List, [], ◌∷◌, ◌++◌, ltb, ◌==◌, or_else,
  if◌then◌else◌, map,
}
use algo_trading.Common.Int.{ℤ, pos, ◌+ℤ◌, ◌-ℤ◌, ◌*ℤ◌, ltb_ℤ}
use algo_trading.Common.Dict.{Dict, lookup, insert, erase}
use algo_trading.Models.{
  Side, buy, sell, opposite, OptionType, ExitReason, Result, ok, err, Error, runtime_error,
  key_error,
}
use algo_trading.Engine.Trades.{
  OptionContract, OpenPosition, new_position, profit, unrealised_pnl, update_price, Trade, net_pnl,
}

pub record FillOutcome : Type 0 where
  pub fill_price : ℕ
  pub charges : ℤ
  pub charges_breakdown : Dict ℤ

pub record PositionManager : Type 0 where
  pub lots : ℕ
  pub positions : Dict OpenPosition
  pub entry_charges : Dict ℤ
  pub entry_breakdown : Dict (Dict ℤ)
  pub entry_regime : Dict (Option ℕ)
  pub entry_regime_features : Dict ℕ
  pub trades : List Trade

-- The text of an empty JSON object.
abbrev pub no_features : ℕ
no_features = 0

-- The empty text of `session_tags`.
abbrev no_tags : ℕ
no_tags = 0

unfoldable pub new_manager : ℕ → PositionManager
new_manager lots = record {
  lots = lots;
  positions = [];
  entry_charges = [];
  entry_breakdown = [];
  entry_regime = [];
  entry_regime_features = [];
  trades = [];
}

-- A gateway: an order for a contract with its lots, reference price, moment, stop and target.
pub record Gateway (G : Type 0) : Type 0 where
  pub place : Side → OptionContract → ℕ → ℕ → ℕ → Option ℕ → Option ℕ → G → Result FillOutcome × G

-- A position enters the books.
unfoldable pub enter : OpenPosition → ℤ → Dict ℤ → Option ℕ → ℕ → PositionManager → PositionManager
enter p charges breakdown regime features m =
    let id = p.contract.security_id in
    record m {
      positions = insert id p m.positions;
      entry_charges = insert id charges m.entry_charges;
      entry_breakdown = insert id breakdown m.entry_breakdown;
      entry_regime = insert id regime m.entry_regime;
      entry_regime_features = insert id features m.entry_regime_features;
    }

-- `adopt`: a recovered position, without an order.
unfoldable pub adopt :
    OptionContract
    → Side
    → ℕ
    → ℕ
    → ℕ
    → ℤ
    → Option ℕ
    → ℤ
    → ℤ
    → PositionManager
    → Result OpenPosition × PositionManager
unfolding new_position update_price enter
adopt contract side lots entry_price entry_time entry_charges last_price favorable adverse m =
    let p = record (new_position contract side lots entry_price entry_time) {
      max_favorable_pnl = favorable;
      max_adverse_pnl = adverse;
    } in
    let priced : OpenPosition = elim last_price [ none ↦ p | some price ↦ update_price price p ] in
    elim (lookup contract.security_id m.positions) [
      | some q ↦ (err runtime_error, m)
      | none ↦ (ok priced, enter priced entry_charges [] none no_features m)
    ]

-- A key among sorted keys, once.
add_key : ℕ → List ℕ → List ℕ
add_key k [] = k ∷ []
add_key k (j ∷ js) =
    let rest = add_key k js in if k == j then j ∷ js else if ltb k j then k ∷ j ∷ js else j ∷ rest

sorted_keys : Dict ℤ → List ℕ → List ℕ
unfolding add_key
sorted_keys [] ks = ks
sorted_keys ((k, x) ∷ d) ks = add_key k (sorted_keys d ks)

amount : ℕ → Dict ℤ → ℤ
amount k d = or_else (lookup k d) (pos 0)

unfoldable pub merge_breakdowns : (ℤ → ℤ) → Dict ℤ → Dict ℤ → Dict ℤ
unfolding sorted_keys amount
merge_breakdowns round a b =
    map (λ k. (k, round (amount k a +ℤ amount k b))) (sorted_keys a (sorted_keys b []))

-- The trade that closes a position.
unfoldable pub trade_of :
    (ℤ → ℤ)
    → ℕ
    → OpenPosition
    → FillOutcome
    → ℕ
    → ExitReason
    → Option ℕ
    → ℕ
    → PositionManager
    → Trade
unfolding profit update_price merge_breakdowns
trade_of round id p fill ts reason exit_regime tags m =
    let moved = update_price fill.fill_price p in
    record {
      contract = p.contract;
      side = p.side;
      lots = p.lots;
      quantity = p.quantity;
      entry_price = p.entry_price;
      exit_price = fill.fill_price;
      entry_time = p.entry_time;
      exit_time = ts;
      exit_reason = reason;
      gross_pnl = profit p.side p.entry_price fill.fill_price p.quantity;
      charges = or_else (lookup id m.entry_charges) (pos 0) +ℤ fill.charges;
      charges_breakdown =
          merge_breakdowns round (or_else (lookup id m.entry_breakdown) []) fill.charges_breakdown;
      mfe = moved.max_favorable_pnl;
      mae = moved.max_adverse_pnl;
      entry_regime = or_else (lookup id m.entry_regime) none;
      exit_regime = exit_regime;
      session_tags = tags;
      entry_regime_features = or_else (lookup id m.entry_regime_features) no_features;
    }

-- The position leaves the books, and the trade is recorded.
unfoldable pub settle : ℕ → Trade → PositionManager → PositionManager
settle id t m = record m {
  positions = erase id m.positions;
  entry_charges = erase id m.entry_charges;
  entry_breakdown = erase id m.entry_breakdown;
  entry_regime = erase id m.entry_regime;
  entry_regime_features = erase id m.entry_regime_features;
  trades = m.trades ++ t ∷ [];
}

module _ {G : Type 0} (gateway : Gateway G) (round : ℤ → ℤ) where
  opened :
      OptionContract
      → Side
      → ℕ
      → Option ℕ
      → ℕ
      → Result FillOutcome × G
      → PositionManager
      → Result OpenPosition × PositionManager × G
  unfolding new_position enter
  opened contract side ts regime features (err e, g) m = (err e, m, g)
  opened contract side ts regime features (ok fill, g) m =
      let p = new_position contract side m.lots fill.fill_price ts in
      (ok p, enter p fill.charges fill.charges_breakdown regime features m, g)

  unfoldable pub open_found :
      OptionContract
      → Side
      → ℕ
      → ℕ
      → Option ℕ
      → ℕ
      → Option ℕ
      → Option ℕ
      → PositionManager
      → G
      → Option OpenPosition
      → Result OpenPosition × PositionManager × G
  unfolding opened
  open_found contract side ref_price ts regime features stop target m g none =
      opened contract side ts regime features
        (gateway.place side contract m.lots ref_price ts stop target g) m
  open_found contract side ref_price ts regime features stop target m g (some p) =
      (err runtime_error, m, g)

  -- `open`, whose name is a keyword.
  unfoldable pub open_position :
      OptionContract
      → Side
      → ℕ
      → ℕ
      → Option ℕ
      → ℕ
      → Option ℕ
      → Option ℕ
      → PositionManager
      → G
      → Result OpenPosition × PositionManager × G
  unfolding open_found
  open_position contract side ref_price ts regime features stop target m g =
      open_found contract side ref_price ts regime features stop target m g
        (lookup contract.security_id m.positions)

  closed :
      ℕ
      → OpenPosition
      → ℕ
      → ExitReason
      → Option ℕ
      → ℕ
      → Result FillOutcome × G
      → PositionManager
      → Result Trade × PositionManager × G
  unfolding trade_of settle
  closed id p ts reason regime tags (err e, g) m = (err e, m, g)
  closed id p ts reason regime tags (ok fill, g) m =
      let t = trade_of round id p fill ts reason regime tags m in (ok t, settle id t m, g)

  unfoldable pub close_found :
      ℕ
      → ℕ
      → ℕ
      → ExitReason
      → Option ℕ
      → ℕ
      → PositionManager
      → G
      → Option OpenPosition
      → Result Trade × PositionManager × G
  unfolding closed
  close_found id ref_price ts reason regime tags m g none = (err runtime_error, m, g)
  close_found id ref_price ts reason regime tags m g (some p) =
      closed id p ts reason regime tags
        (gateway.place (opposite p.side) p.contract p.lots ref_price ts none none g) m

  unfoldable pub close :
      ℕ
      → ℕ
      → ℕ
      → ExitReason
      → Option ℕ
      → ℕ
      → PositionManager
      → G
      → Result Trade × PositionManager × G
  unfolding close_found
  close id ref_price ts reason regime tags m g =
      close_found id ref_price ts reason regime tags m g (lookup id m.positions)

  -- One turn of the loop of `close_all`, with what the rest of the loop does.
  turn :
      ℕ
      → Option OpenPosition
      → Dict ℕ
      → ℕ
      → ExitReason
      → PositionManager
      → G
      → Result Trade × PositionManager × G
  turn id none refs ts reason m g = (err key_error, m, g)
  turn id (some p) refs ts reason m g =
      close id (or_else (lookup id refs) p.last_price) ts reason none no_tags m g

  -- The trade of a turn and those of the rest; a turn that raises ends the loop.
  then_rest :
      Result Trade × PositionManager × G
      → Result (List Trade) × PositionManager × G
      → Result (List Trade) × PositionManager × G
  then_rest (err e, m1, g1) rest = (err e, m1, g1)
  then_rest (ok t, m1, g1) (err e, m2, g2) = (err e, m2, g2)
  then_rest (ok t, m1, g1) (ok ts, m2, g2) = (ok (t ∷ ts), m2, g2)

  unfoldable pub close_each :
      List ℕ
      → Dict ℕ
      → ℕ
      → ExitReason
      → PositionManager
      → G
      → Result (List Trade) × PositionManager × G
  unfolding turn then_rest
  close_each [] refs ts reason m g = (ok [], m, g)
  close_each (id ∷ ids) refs ts reason m g =
      let (t, m1, g1) = turn id (lookup id m.positions) refs ts reason m g in
      then_rest (t, m1, g1) (close_each ids refs ts reason m1 g1)

  unfoldable pub close_all :
      Dict ℕ → ℕ → ExitReason → PositionManager → G → Result (List Trade) × PositionManager × G
  unfolding close_each
  close_all refs ts reason m g = close_each (map (λ e. e.0) m.positions) refs ts reason m g
