-- ===== src/Engine/Positions/Closing.antt =====
-- `close_all`, with a gateway that fills every order.
use algo_trading.Common.{
  ℕ, ◌≡◌, refl, sym, ap, ◌∙◌, false, Option, none, some, List, [], ◌∷◌, ◌++◌, arith, ◌==◌, ==-refl,
  or_else, map, All,
}
use algo_trading.Common.Int.{ℤ}
use algo_trading.Common.Dict.{Dict, lookup, erase}
use algo_trading.Models.{Side, opposite, ExitReason, Result, ok, err}
use algo_trading.Engine.Trades.{OptionContract, OpenPosition, Trade}
use algo_trading.Engine.Positions.{
  FillOutcome, PositionManager, Gateway, no_tags, trade_of, settle, close_each, close_all, turn,
  then_rest,
}
use algo_trading.Engine.Positions.Books.{close_lem}

-- The keys of a dict: all different.
abbrev pub IsDistinct {ℓ} : {V : Type ℓ} → Dict V → Type ℓ
IsDistinct [] = Unit
IsDistinct (e ∷ d) = All (λ x. (x.0 == e.0) ≡ false) d × IsDistinct d

erase_absent : (id : ℕ) (d : Dict OpenPosition) → All (λ x. (x.0 == id) ≡ false) d → erase id d ≡ d
unfolding erase
erase_absent id [] h = refl
erase_absent id ((j, p) ∷ d) h =
    let other : (id == j) ≡ false = ground (arith, h.0) in rw (other, erase_absent id d h.1)

erase_first :
    (id : ℕ) (p : OpenPosition) (d : Dict OpenPosition)
    → All (λ x. (x.0 == id) ≡ false) d
    → erase id ((id, p) ∷ d) ≡ d
unfolding erase
erase_first id p d h = rw (==-refl id, erase_absent id d h)

append_nil : (xs : List Trade) → xs ++ [] ≡ xs
append_nil [] = refl
append_nil (x ∷ xs) = ap (λ r. x ∷ r) (append_nil xs)

append_assoc : (xs ys zs : List Trade) → (xs ++ ys) ++ zs ≡ xs ++ (ys ++ zs)
append_assoc [] ys zs = refl
append_assoc (x ∷ xs) ys zs = ap (λ r. x ∷ r) (append_assoc xs ys zs)

-- The gateway fills every order, at a price and in a state of its own.
pub record IsFilling {G : Type 0} (gateway : Gateway G) : Type 0 where
  pub fill : Side → OptionContract → ℕ → ℕ → ℕ → Option ℕ → Option ℕ → G → FillOutcome × G
  pub fills :
      (s : Side) (c : OptionContract) (l r t : ℕ) (stop target : Option ℕ) (g : G)
      → gateway.place s c l r t stop target g
        ≡ (ok (fill s c l r t stop target g).0, (fill s c l r t stop target g).1)

module _ {G : Type 0} (gateway : Gateway G) (round : ℤ → ℤ) where
  -- What a run of `close_all` is to leave.
  pub Closed : PositionManager → Result (List Trade) × PositionManager × G → Type 0
  Closed m (r, m2, g2) =
      (ts : List Trade) × r ≡ ok ts
      × m2.positions ≡ []
      × m2.trades ≡ m.trades ++ ts
      × map (λ t. t.contract) ts ≡ map (λ e. e.1.contract) m.positions

  turn_lem :
      (id : ℕ) (p : OpenPosition) (refs : Dict ℕ) (ts : ℕ) (reason : ExitReason)
      (m : PositionManager) (g g1 : G) (f : FillOutcome)
      → let ref = or_else (lookup id refs) p.last_price in
        lookup id m.positions ≡ some p
        → gateway.place (opposite p.side) p.contract p.lots ref ts none none g ≡ (ok f, g1)
        → let t = trade_of round id p f ts reason none no_tags m in
          turn gateway round id (lookup id m.positions) refs ts reason m g
          ≡ (ok t, settle id t m, g1)
  unfolding turn
  turn_lem id p refs ts reason m g g1 f held filled =
      rw held (close_lem gateway round id _ ts reason none no_tags m g g1 p f held filled)

  then_rest-Closed :
      (id : ℕ) (p : OpenPosition) (ps : Dict OpenPosition) (t : Trade) (m m1 : PositionManager)
      (g1 : G) (rest : Result (List Trade) × PositionManager × G)
      → m.positions ≡ (id, p) ∷ ps
      → m1.positions ≡ ps
      → m1.trades ≡ m.trades ++ t ∷ []
      → t.contract ≡ p.contract
      → Closed m1 rest
      → Closed m (then_rest gateway round (ok t, m1, g1) rest)
  unfolding Closed then_rest
  then_rest-Closed id p ps t m m1 g1 (err e, m2, g2) here left traded same
        (ts, good, empty, trades, contracts) =
      absurd (ground (arith, good))
  then_rest-Closed id p ps t m m1 g1 (ok us, m2, g2) here left traded same
        (ts, good, empty, trades, contracts) =
      (
        t ∷ ts,
        ground (arith, good),
        empty,
        trades ∙ rw traded (append_assoc m.trades (t ∷ []) ts),
        rw (here, same, contracts, left),
      )

  close_each-Closed :
      (ps : Dict OpenPosition) (refs : Dict ℕ) (ts : ℕ) (reason : ExitReason) (m : PositionManager)
      (g : G)
      → IsFilling gateway
      → m.positions ≡ ps
      → IsDistinct ps
      → Closed m (close_each gateway round (map (λ e. e.0) ps) refs ts reason m g)
  unfolding close_each
  close_each-Closed [] refs ts reason m g filling here distinct =
      unfold Closed in ([], refl, here, sym (append_nil m.trades), rw here refl)
  close_each-Closed ((id, p) ∷ ps) refs ts reason m g filling here distinct =
      let ref = or_else (lookup id refs) p.last_price in
      let f = filling.fill (opposite p.side) p.contract p.lots ref ts none none g in
      let t = trade_of round id p f.0 ts reason none no_tags m in
      let held : lookup id m.positions ≡ some p = rw here (unfold lookup in rw (==-refl id)) in
      let left : (settle id t m).positions ≡ ps =
        unfold settle in rw here (erase_first id p ps distinct.0) in
      let turned = turn_lem id p refs ts reason m g f.1 f.0 held (filling.fills _ _ _ _ _ _ _ _) in
      rw turned (
        then_rest-Closed id p ps t m (settle id t m) f.1 _ here left (unfold settle in refl)
          (unfold trade_of in refl)
          (close_each-Closed ps refs ts reason (settle id t m) f.1 filling left distinct.1))

  -- `close_all` with a gateway that fills every order, where the keys of the positions are all
  -- different: it returns one trade for every position, of its contract and in the order of the
  -- positions, no position is left, and the trades are added to those recorded.
  pub close_all-Closed :
      (refs : Dict ℕ) (ts : ℕ) (reason : ExitReason) (m : PositionManager) (g : G)
      → IsFilling gateway
      → IsDistinct m.positions
      → Closed m (close_all gateway round refs ts reason m g)
  unfolding close_all
  close_all-Closed refs ts reason m g filling distinct =
      close_each-Closed m.positions refs ts reason m g filling refl distinct
