-- ===== src/Feed/Reconnect/Delays.antt =====
-- The bounds of the backoff.
use algo_trading.Common.{ℕ, zero, suc, ◌-◌, ◌*◌, ◌≤◌, ◌<◌, ◌≡◌, refl, min, arith}
use algo_trading.Models.{ok}
use algo_trading.Feed.Reconnect.{ReconnectPolicy, power, Fraction, delay_for}

mul_positive : (a b : ℕ) → 0 < a → 0 < b → 0 < a * b
mul_positive a b ha hb = grind arith

power_positive : (b n : ℕ) → 0 < b → 0 < power b n
unfolding power
power_positive b zero h = omega arith
power_positive b (suc n) h = mul_positive b (power b n) h (power_positive b n h)

mul_below : (a b c d : ℕ) → a ≤ b → c ≤ d → a * c ≤ b * d
mul_below a b c d h g = grind arith

jitter_left : (ratio draw : ℕ) → ratio ≤ 1000 → draw < 1000 → ratio * draw < 1000000
jitter_left ratio draw h g = omega (arith, mul_below ratio 1000 draw 999 h (omega arith))

abbrev growth : ReconnectPolicy → ℕ → ℕ
growth p n = min (p.initial_backoff * power p.multiplier n) (p.max_backoff * power 1000 n)

growth_positive :
    (p : ReconnectPolicy) (n : ℕ)
    → 0 < p.initial_backoff
    → 0 < p.max_backoff
    → 0 < p.multiplier
    → 0 < growth p n
growth_positive p n first most factor =
    let grown =
      mul_positive p.initial_backoff (power p.multiplier n) first
        (power_positive p.multiplier n factor) in
    let capped =
      mul_positive p.max_backoff (power 1000 n) most (power_positive 1000 n (omega arith)) in
    ground (arith, grown, capped)

-- With backoffs above zero, a multiplier of at least one, a jitter of at most one and a draw below
-- one, an attempt from the first on has a delay, which is above zero and at most the largest
-- backoff.
pub delay_for_bounds :
    (p : ReconnectPolicy) (n draw : ℕ)
    → 0 < p.initial_backoff
    → 0 < p.max_backoff
    → 1000 ≤ p.multiplier
    → p.jitter_ratio ≤ 1000
    → draw < 1000
    → (d : Fraction) × (delay_for p (suc n) draw ≡ ok d)
      × (0 < d.numerator)
      × (d.numerator ≤ p.max_backoff * d.denominator)
unfolding delay_for
delay_for_bounds p n draw first most factor ratio drawn =
    let left = 1000000 - p.jitter_ratio * draw in
    let some_left : 0 < left = omega (arith, jitter_left p.jitter_ratio draw ratio drawn) in
    let positive = growth_positive p n first most (omega (arith, factor)) in
    let unit = power 1000 n in
    let capped : growth p n ≤ p.max_backoff * unit = ground arith in
    (
      record { numerator = growth p n * left; denominator = unit * 1000000 },
      refl,
      mul_positive (growth p n) left positive some_left,
      omega
          (arith, mul_below (growth p n) (p.max_backoff * unit) left 1000000 capped (omega arith)),
    )
