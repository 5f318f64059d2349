-- ===== src/Candles/Builder/Summary.antt =====
-- The candle that the builder returns is the summary of the ticks of its interval.
use algo_trading.Common.{ℕ, ◌+◌, ◌*◌, ◌≡◌, List, [], ◌∷◌, map, length}
use algo_trading.Common.Int.{pos}
use algo_trading.Models.{Candle}
use algo_trading.Candles.Interval.{floored}
use algo_trading.Candles.Aggregator.Bars.{highest, lowest, last_of}
use algo_trading.Candles.Builder.{Bar, Builder, absorb, add}

-- A tick as the builder is given it.
pub record Given : Type 0 where
  pub price : ℕ
  pub ts : ℕ
  pub volume : ℕ

-- The builder after ticks.
unfoldable pub adds : List Given → Builder → Builder
adds [] b = b
adds (g ∷ gs) b = adds gs (add b g.price g.ts (pos g.volume)).1

absorbs : List Given → Bar → Bar
absorbs [] bar = bar
absorbs (g ∷ gs) bar = absorbs gs (absorb bar g.price g.ts g.volume)

abbrev prices : List Given → List ℕ
prices = map (λ g. g.price)

unfoldable pub total : List Given → ℕ
total [] = 0
total (g ∷ gs) = g.volume + total gs

-- The tick lies in the interval that starts at a moment.
abbrev pub InBucket : ℕ → ℕ → Given → Type 0
InBucket minutes start g = floored g.ts (minutes * 60) ≡ start

-- The reference: the candle of an interval from `start` for the ticks `g ∷ gs`.
abbrev pub Summarised : ℕ → ℕ → Given → List Given → Candle → Type 0
Summarised start finish g gs c =
    (c.start_at ≡ start)
    × (c.end_at ≡ finish)
    × (c.open_price ≡ g.price)
    × (c.high ≡ highest g.price (map (λ x. x.price) gs))
    × (c.low ≡ lowest g.price (map (λ x. x.price) gs))
    × (c.close ≡ last_of g.price (map (λ x. x.price) gs))
    × (c.volume ≡ total (g ∷ gs))
    × (c.tick_count ≡ length (g ∷ gs))

record Sums (b : Bar) (gs : List Given) (c : Bar) : Type 0 where
  opened : c.open_price ≡ b.open_price
  high : c.high ≡ highest b.high (prices gs)
  low : c.low ≡ lowest b.low (prices gs)
  closed : c.close ≡ last_of b.close (prices gs)
  volume : c.volume ≡ b.volume + total gs
  count : c.tick_count ≡ b.tick_count + length gs
  start : c.start_at ≡ b.start_at
