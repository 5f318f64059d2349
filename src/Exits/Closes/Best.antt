-- ===== src/Exits/Closes/Best.antt =====
-- The reference of the exits that trail a best close: the best close, and how far another lies behind
-- it.
use algo_trading.Common.{
  ℕ, ◌*◌, ◌≤◌, ◌≡◌, refl, Bool, true, false, List, [], ◌∷◌, arith, max, min, if◌then◌else◌,
}
use algo_trading.Common.Int.{ℤ, pos, ◌-ℤ◌, ◌*ℤ◌, int_laws, *ℤ_parts}
use algo_trading.Models.{Side, buy, sell, is_buy, OptionType, ce, pe, is_ce, Candle}
use algo_trading.Engine.Trades.{OpenPosition}
use algo_trading.Exits.Closes.{Basis, by_side, by_option_type, is_long, retraced}

-- The reference: the highest of the closes, for a short view the lowest.
unfoldable pub best_close : Bool → Candle → List Candle → ℕ
best_close long c [] = c.close
best_close long c (d ∷ cs) =
    if long then max (best_close long d cs) c.close else min (best_close long d cs) c.close

-- The reference: whether a higher close is the better one, from the side of the position or from
-- its option.
unfoldable pub rises : Basis → OpenPosition → Bool
rises by_side p = elim p.side [ buy ↦ true | sell ↦ false ]
rises by_option_type p = elim p.contract.option_type [ ce ↦ true | pe ↦ false ]

-- The reference: how far a close lies behind the best one.
unfoldable pub behind : Bool → ℕ → ℕ → ℤ
behind true best close = pos best -ℤ pos close
behind false best close = pos close -ℤ pos best

-- The best close is at least as good as the newest.
abbrev pub IsBest : Bool → ℕ → ℕ → Type 0
IsBest true x close = close ≤ x
IsBest false x close = x ≤ close

pub best_close-IsBest :
    (long : Bool) (c : Candle) (cs : List Candle) → IsBest long (best_close long c cs) c.close
unfolding best_close
best_close-IsBest true c [] = omega arith
best_close-IsBest false c [] = omega arith
best_close-IsBest true c (d ∷ cs) = ground arith
best_close-IsBest false c (d ∷ cs) = ground arith

pub retraced-behind :
    (long : Bool) (x close : ℕ)
    → IsBest long x close
    → pos (retraced long x close) ≡ behind long x close
unfolding retraced behind
retraced-behind true x close h = grind (int_laws, h)
retraced-behind false x close h = grind (int_laws, h)

pub percents : (n : ℕ) → pos (n * 10000) ≡ pos n *ℤ pos 10000
percents n = grind (int_laws, *ℤ_parts (pos n) (pos 10000))

side_rises : (s : Side) → is_buy s ≡ (elim s as (λ x. Bool) [ buy ↦ true | sell ↦ false ])
side_rises buy = refl
side_rises sell = refl

option_rises : (o : OptionType) → is_ce o ≡ (elim o as (λ x. Bool) [ ce ↦ true | pe ↦ false ])
option_rises ce = refl
option_rises pe = refl

pub is_long-rises : (b : Basis) (p : OpenPosition) → is_long b p ≡ rises b p
unfolding is_long rises
is_long-rises by_side p = side_rises p.side
is_long-rises by_option_type p = option_rises p.contract.option_type
