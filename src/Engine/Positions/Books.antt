-- ===== src/Engine/Positions/Books.antt =====
-- What a position and its trade hold.
use algo_trading.Common.{ℕ, ◌*◌, ◌≡◌, refl, ap, Option, none, some, [], ◌∷◌, ◌++◌, arith, ==-refl}
use algo_trading.Common.Int.{ℤ, pos, ◌+ℤ◌, ◌-ℤ◌, ◌*ℤ◌, ◌≤ℤ◌, *ℤ_parts, -ℤ_parts, eq_of_parts}
use algo_trading.Common.Dict.{lookup, lookup-insert, lookup-erase-insert}
use algo_trading.Models.{Side, buy, sell, opposite, ExitReason, ok}
use algo_trading.Engine.Trades.{
  OptionContract, OpenPosition, new_position, profit, unrealised_pnl, update_price, Trade, net_pnl,
}
use algo_trading.Engine.Positions.{
  FillOutcome, PositionManager, Gateway, enter, trade_of, settle, open_position, open_found, opened,
  closed, close, close_found,
}

-- The best and the worst profit enclose the profit of the moment and no profit at all.
pub record IsEnclosed (p : OpenPosition) : Type 0 where
  pub best : unrealised_pnl p ≤ℤ p.max_favorable_pnl
  pub worst : p.max_adverse_pnl ≤ℤ unrealised_pnl p
  pub gain : pos 0 ≤ℤ p.max_favorable_pnl
  pub loss : p.max_adverse_pnl ≤ℤ pos 0

-- A price keeps the best profit at least 0 and the worst at most 0, and encloses the profit at that
-- price.
pub update_price-IsEnclosed :
    (price : ℕ) (p : OpenPosition)
    → pos 0 ≤ℤ p.max_favorable_pnl
    → p.max_adverse_pnl ≤ℤ pos 0
    → IsEnclosed (update_price price p)
unfolding update_price unrealised_pnl
update_price-IsEnclosed price p gain loss = record {
  best = ground (arith, gain);
  worst = ground (arith, loss);
  gain = ground (arith, gain);
  loss = ground (arith, loss);
}

-- The reference: what a quantity brings that is bought at one price and sold at the other; a side says
-- which comes first.
unfoldable pub proceeds : Side → ℕ → ℕ → ℕ → ℤ
proceeds buy entry exit quantity = pos (exit * quantity) -ℤ pos (entry * quantity)
proceeds sell entry exit quantity = pos (entry * quantity) -ℤ pos (exit * quantity)

difference_times : (a b n : ℕ) → (pos a -ℤ pos b) *ℤ pos n ≡ pos (a * n) -ℤ pos (b * n)
difference_times a b n = eq_of_parts _ _ (
    omega (
      arith,
      *ℤ_parts (pos a -ℤ pos b) (pos n),
      ap (λ x. x * n) (-ℤ_parts (pos a) (pos b)),
      -ℤ_parts (pos (a * n)) (pos (b * n)),
    ))

profit-proceeds :
    (side : Side) (entry exit quantity : ℕ)
    → profit side entry exit quantity ≡ proceeds side entry exit quantity
unfolding profit proceeds
profit-proceeds buy entry exit quantity = difference_times exit entry quantity
profit-proceeds sell entry exit quantity = difference_times entry exit quantity

module _ {G : Type 0} (gateway : Gateway G) (round : ℤ → ℤ) where
  pub open_position_lem :
      (c : OptionContract) (side : Side) (ref ts : ℕ) (regime : Option ℕ) (features : ℕ)
      (stop target : Option ℕ) (m : PositionManager) (g g1 : G) (f : FillOutcome)
      → lookup c.security_id m.positions ≡ none
      → gateway.place side c m.lots ref ts stop target g ≡ (ok f, g1)
      → let p = new_position c side m.lots f.fill_price ts in
        open_position gateway round c side ref ts regime features stop target m g
        ≡ (ok p, enter p f.charges f.charges_breakdown regime features m, g1)
  unfolding open_position open_found opened
  open_position_lem c side ref ts regime features stop target m g g1 f fresh filled =
      rw (fresh, filled)

  pub close_lem :
      (id ref ts : ℕ) (reason : ExitReason) (regime : Option ℕ) (tags : ℕ) (m : PositionManager)
      (g g1 : G) (p : OpenPosition) (f : FillOutcome)
      → lookup id m.positions ≡ some p
      → gateway.place (opposite p.side) p.contract p.lots ref ts none none g ≡ (ok f, g1)
      → let t = trade_of round id p f ts reason regime tags m in
        close gateway round id ref ts reason regime tags m g ≡ (ok t, settle id t m, g1)
  unfolding close close_found closed
  close_lem id ref ts reason regime tags m g g1 p f held filled = rw (held, filled)

  -- Opening a position for a contract that has neither a position nor entry charges in the books,
  -- and closing it, where the gateway fills both orders: the close returns a trade whose net profit
  -- is, for the quantity of the lots, what the sale of the two orders brings less what the purchase
  -- costs, less the charges of both, the
  -- trade is the last of the trades, the gateway is left as the second fill leaves it, and the
  -- positions and the entry charges are for every contract what they were.
  pub close-open_position :
      (c : OptionContract) (side : Side) (ref exit_ref ts exit_ts : ℕ)
      (regime exit_regime : Option ℕ) (features tags : ℕ) (stop target : Option ℕ)
      (reason : ExitReason) (m : PositionManager) (g g1 g2 : G) (f1 f2 : FillOutcome)
      → lookup c.security_id m.positions ≡ none
      → lookup c.security_id m.entry_charges ≡ none
      → gateway.place side c m.lots ref ts stop target g ≡ (ok f1, g1)
      → gateway.place (opposite side) c m.lots exit_ref exit_ts none none g1 ≡ (ok f2, g2)
      → let (p, m1, h1) =
          open_position gateway round c side ref ts regime features stop target m g in
        let (r, m2, h2) =
          close gateway round c.security_id exit_ref exit_ts reason exit_regime tags m1 h1 in
        (t : Trade) × r ≡ ok t
        × net_pnl t
          ≡ proceeds side f1.fill_price f2.fill_price (m.lots * c.lot_size)
            -ℤ (f1.charges +ℤ f2.charges)
        × m2.trades ≡ m.trades ++ t ∷ []
        × h2 ≡ g2
        × ((k : ℕ) → lookup k m2.positions ≡ lookup k m.positions)
        × ((k : ℕ) → lookup k m2.entry_charges ≡ lookup k m.entry_charges)
  close-open_position c side ref exit_ref ts exit_ts regime exit_regime features tags stop target
        reason m g g1 g2 f1 f2 fresh uncharged filled1 filled2 =
      let id = c.security_id in
      let p = new_position c side m.lots f1.fill_price ts in
      let m1 = enter p f1.charges f1.charges_breakdown regime features m in
      let t = trade_of round id p f2 exit_ts reason exit_regime tags m1 in
      let held : lookup id m1.positions ≡ some p =
        unfold enter new_position in rw (lookup-insert, ==-refl) in
      let paid : lookup id m1.entry_charges ≡ some f1.charges =
        unfold enter new_position in rw (lookup-insert, ==-refl) in
      let order : gateway.place (opposite p.side) p.contract p.lots exit_ref exit_ts none none g1
          ≡ (ok f2, g2) =
        unfold new_position in filled2 in
      rw (open_position_lem c side ref ts regime features stop target m g g1 f1 fresh filled1) (
        rw (close_lem id exit_ref exit_ts reason exit_regime tags m1 g1 g2 p f2 held order) (
          t,
          refl,
          unfold net_pnl trade_of new_position in
              rw (paid, profit-proceeds side f1.fill_price f2.fill_price (m.lots * c.lot_size))
                refl,
          unfold settle enter in refl,
          refl,
          λ k. unfold settle enter new_position in lookup-erase-insert k id _ m.positions fresh,
          λ k.
              unfold settle enter new_position in
              lookup-erase-insert k id _ m.entry_charges uncharged,
        ))
