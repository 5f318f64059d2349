-- ===== src/Exits/Peak.antt =====
-- The trailing stop over the profits it is shown.
use algo_trading.Common.{
  ◌≡◌, refl, ◌↔◌, true, false, none, some, List, [], ◌∷◌, arith, ap, if◌then◌else◌, if-holds,
}
use algo_trading.Common.Int.{ℤ, pos, ◌-ℤ◌, ◌≤ℤ◌, ◌<ℤ◌, max_ℤ, int_laws, ltb_ℤ, leb_ℤ}
use algo_trading.Exits.{Trailing, reset, snapshot, restore, should_exit_at}

-- The state after a list of profits.
unfoldable pub shown : List ℤ → Trailing → Trailing
shown [] t = t
shown (p ∷ ps) t = shown ps (should_exit_at p t).1

-- The reference: the highest of the profits and a first amount.
unfoldable pub highest : ℤ → List ℤ → ℤ
highest h [] = h
highest h (p ∷ ps) = highest (max_ℤ h p) ps

shown-highest :
    (ps : List ℤ) (t : Trailing)
    → (shown ps t).peak_profit ≡ highest t.peak_profit ps
      × (shown ps t).trail_points ≡ t.trail_points
unfolding shown highest should_exit_at
shown-highest [] t = (refl, refl)
shown-highest (p ∷ ps) t = shown-highest ps (should_exit_at p t).1

fires :
    (peak points profit : ℤ)
    → ((if leb_ℤ peak (pos 0) then false else leb_ℤ points (peak -ℤ profit)) ≡ true)
      ↔ ((pos 0 <ℤ peak) × (points ≤ℤ (peak -ℤ profit)))
fires peak points profit = ground arith

-- After a reset and any profits, the trailing stop answers to a further profit that the position is
-- to be closed exactly if the highest profit, with the further one, is above zero and the further
-- one lies at least the trailing points below it.
pub should_exit_at-highest :
    (t : Trailing) (ps : List ℤ) (profit : ℤ)
    → let peak = max_ℤ (highest (pos 0) ps) profit in
      ((should_exit_at profit (shown ps (reset t))).0 ≡ true)
      ↔ ((pos 0 <ℤ peak) × (t.trail_points ≤ℤ (peak -ℤ profit)))
unfolding should_exit_at reset
should_exit_at-highest t ps profit =
    let after = shown-highest ps (reset t) in
    rw (after.0, after.1) (fires (max_ℤ (highest (pos 0) ps) profit) t.trail_points profit)

-- A trailing stop whose peak is not negative is what a fresh one becomes from its snapshot.
pub restore-snapshot : (t : Trailing) → pos 0 ≤ℤ t.peak_profit → restore (snapshot t) (reset t) ≡ t
unfolding restore snapshot reset
restore-snapshot t h =
    if-holds (λ o. restore o (reset t) ≡ t) (ltb_ℤ (pos 0) t.peak_profit) (some t.peak_profit) none
      (λ _. refl)
      (λ low.
        let flat : pos 0 ≡ t.peak_profit = grind (int_laws, low, h) in
        ap (λ x. record t { peak_profit = x }) flat)
