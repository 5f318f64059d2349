-- ===== src/Broker/Pricing/Grid.antt =====
-- The bounds of a simulated price.
use algo_trading.Common.{ℕ, zero, suc, ◌+◌, ◌-◌, ◌*◌, ◌/◌, ◌≤◌, ◌<◌, ◌≡◌, refl, false, arith, ◌==◌}
use algo_trading.Models.{Side, buy, sell}
use algo_trading.Broker.Pricing.{scale, round_to_tick, moved_price}

-- A price that a purchase pays, or a sale receives, for an amount of ten-thousandths: not better,
-- and less than a tick worse.
pub IsAdverse : Side → ℕ → ℕ → ℕ → Type 0
IsAdverse buy exact tick price = (exact ≤ price * scale) × (price * scale < exact + tick * scale)
IsAdverse sell exact tick price = (price * scale ≤ exact) × (exact < price * scale + tick * scale)

floor_bounds : (e i : ℕ) → 0 < i → (e / i * i ≤ e) × (e < e / i * i + i)
floor_bounds e i h = grind arith

tick_bounds :
    (e t : ℕ)
    → 0 < t
    → (e / (t * scale) * t * scale ≤ e) × (e < e / (t * scale) * t * scale + t * scale)
tick_bounds e t h =
    let f = floor_bounds e (t * scale) (omega arith) in (omega (arith, f.0), omega (arith, f.1))

-- For a positive tick the rounded price is a multiple of it, and is the multiple next to the exact
-- amount on the side that is worse for the order.
pub round_to_tick-IsAdverse :
    (side : Side) (exact tick : ℕ)
    → 0 < tick
    → let price = round_to_tick exact tick side in
      ((k : ℕ) × (price ≡ k * tick)) × IsAdverse side exact tick price
unfolding round_to_tick IsAdverse
round_to_tick-IsAdverse buy e t h =
    let f = tick_bounds (e + (t * scale - 1)) t h in
    (((e + (t * scale - 1)) / (t * scale), refl), (omega (arith, f.1), omega (arith, f.0)))
round_to_tick-IsAdverse sell e t h = ((e / (t * scale), refl), tick_bounds e t h)

unfoldable pub NotBetter : Side → ℕ → ℕ → Type 0
NotBetter buy base price = base ≤ price
NotBetter sell base price = price ≤ base

-- A price on the tick grid, above zero, and not better than the side of the book it takes.
unfoldable pub IsFair : Side → ℕ → ℕ → ℕ → Type 0
IsFair side tick base price =
    (0 < price) × ((k : ℕ) × (price ≡ k * tick)) × NotBetter side base price

pub not_better :
    (side : Side) (base slippage tick price : ℕ)
    → IsAdverse side (moved_price side base slippage) tick price
    → NotBetter side base price
unfolding IsAdverse NotBetter moved_price
not_better buy base slippage tick price h = omega (arith, h.0)
not_better sell base slippage tick price h = omega (arith, h.0)

positive_factor : (m n : ℕ) → 0 < m * n → 0 < m
positive_factor zero n h = absurd (omega arith)
positive_factor (suc m) n h = omega arith

whole_ticks : (m n : ℕ) → 0 < m → n ≤ m * n
whole_ticks zero n h = absurd (omega arith)
whole_ticks (suc m) n h = omega arith

some_steps : (e step : ℕ) → 0 < e → 0 < step → 0 < (e + (step - 1)) / step
some_steps e step h k =
    let f = floor_bounds (e + (step - 1)) step k in
    let below : e + (step - 1) < (e + (step - 1)) / step * step + step = f.1 in
    positive_factor ((e + (step - 1)) / step) step (omega (arith, below))

-- A purchase of something above zero is given a price above zero.
pub purchase_rounded :
    (exact tick : ℕ) → 0 < exact → 0 < tick → (round_to_tick exact tick buy == 0) ≡ false
unfolding round_to_tick
purchase_rounded exact tick h k =
    let steps = some_steps exact (tick * scale) h (omega arith) in
    let whole : tick ≤ (exact + (tick * scale - 1)) / (tick * scale) * tick =
      whole_ticks ((exact + (tick * scale - 1)) / (tick * scale)) tick steps in
    ground (arith, whole, k)
