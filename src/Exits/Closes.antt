-- ===== src/Exits/Closes.antt =====
-- The exits of common/exit that look at closed candles. A percentage is a number of hundredths of a
-- percent, and is compared over the same denominator; prices are positive.
pub mod Best
pub mod Extremes
pub mod Streaks
use algo_trading.Common.{
  ℕ, ◌+◌, ◌-◌, ◌*◌, max, min, Bool, true, false, not, ◌&&◌, ◌||◌, Option, none, some, or_else, ltb,
  leb, if◌then◌else◌,
}
use algo_trading.Common.Int.{ℤ, pos, ◌-ℤ◌, ◌*ℤ◌, ltb_ℤ, leb_ℤ}
use algo_trading.Models.{is_buy, is_ce, Candle}
use algo_trading.Engine.Trades.{OpenPosition}

pub data Basis : Type 0 where
  by_option_type by_side : Basis

-- `_is_long`
unfoldable pub is_long : Basis → OpenPosition → Bool
is_long by_side p = is_buy p.side
is_long by_option_type p = is_ce p.contract.option_type

-- MomentumLowExit.should_exit, from the last candle of the history
unfoldable pub momentum_low_exit : Basis → OpenPosition → Candle → Option Candle → Bool
momentum_low_exit b p c none = false
momentum_low_exit b p c (some prev) =
    if is_long b p then ltb c.close prev.low else ltb prev.high c.close

pub data PriceStream : Type 0 where
  underlying premium : PriceStream

-- MomentumCloseExit.should_exit, from the last candle of the history
unfoldable pub momentum_close_exit : PriceStream → OpenPosition → Candle → Option Candle → Bool
momentum_close_exit s p c none = false
momentum_close_exit premium p c (some prev) =
    if is_buy p.side then ltb c.close prev.close else ltb prev.close c.close
momentum_close_exit underlying p c (some prev) =
    if is_ce p.contract.option_type then ltb c.close prev.close else ltb prev.close c.close

pub data TrailType : Type 0 where
  points percentage : TrailType

-- HighestCloseExit
pub record HighestClose : Type 0 where
  pub basis : Basis
  pub trail_type : TrailType
  pub trail_points : ℤ
  pub trail_percentage : ℤ
  pub activation_enabled : Bool
  pub min_favourable_move_percentage : ℤ
  pub extreme : Option ℕ
  pub activated : Bool

unfoldable pub reset_trail : HighestClose → HighestClose
reset_trail e = record e { extreme = none; activated = false }

-- The extreme and whether the trail is active, if there is an extreme.
unfoldable pub snapshot_trail : HighestClose → Option (ℕ × Bool)
snapshot_trail e = elim e.extreme [ none ↦ none | some x ↦ some (x, e.activated) ]

unfoldable pub restore_trail : Option (ℕ × Bool) → HighestClose → HighestClose
restore_trail none e = e
restore_trail (some (x, active)) e = record e { extreme = some x; activated = active }

-- The extreme with one more close.
unfoldable pub extended : Bool → Option ℕ → ℕ → ℕ
extended long none close = close
extended long (some x) close = if long then max x close else min x close

-- How far the close lies behind the extreme.
unfoldable pub retraced : Bool → ℕ → ℕ → ℕ
retraced long x close = if long then x - close else close - x

-- How far the extreme lies ahead of the entry.
favourable : Bool → ℕ → ℕ → ℤ
favourable long x entry = if long then pos x -ℤ pos entry else pos entry -ℤ pos x

-- Whether the move is below the percentage that activates the trail.
unfoldable pub is_below_activation : HighestClose → Bool → ℕ → ℕ → Bool
unfolding favourable
is_below_activation e long x entry =
    ltb_ℤ (favourable long x entry *ℤ pos 10000) (e.min_favourable_move_percentage *ℤ pos entry)

unfoldable pub retraced_percentage : HighestClose → Bool → ℕ → ℕ → Bool
unfolding retraced
retraced_percentage e long x close =
    leb_ℤ (e.trail_percentage *ℤ pos x) (pos (retraced long x close * 10000))

trailed : TrailType → HighestClose → Bool → ℕ → ℕ → ℕ → Bool × HighestClose
unfolding retraced is_below_activation retraced_percentage
trailed points e long x entry close =
    (leb_ℤ e.trail_points (pos (retraced long x close)), record e { extreme = some x })
trailed percentage e long x entry close =
    let seen = record e { extreme = some x } in
    let due = retraced_percentage e long x close in
    if e.activation_enabled && not e.activated
    then if is_below_activation e long x entry
      then (false, seen)
      else (due, record seen { activated = true })
    else (due, seen)

-- HighestCloseExit.should_exit
unfoldable pub should_trail : OpenPosition → Candle → HighestClose → Bool × HighestClose
unfolding trailed extended
should_trail p c e =
    let long = is_long e.basis p in
    trailed e.trail_type e long (extended long e.extreme c.close) p.entry_price c.close

-- ConsecutiveReversalExit
pub record Reversal : Type 0 where
  pub reverse_candles : ℕ
  pub streak : ℕ
  pub prev_close : Option ℕ

unfoldable pub new_reversal : ℕ → Reversal
new_reversal n = record { reverse_candles = max 1 n; streak = 0; prev_close = none }

unfoldable pub reset_reversal : Reversal → Reversal
reset_reversal e = record e { streak = 0; prev_close = none }

unfoldable pub is_adverse : Bool → ℕ → ℕ → Bool
is_adverse call prev close = if call then ltb close prev else ltb prev close

counted : Bool → Option ℕ → ℕ → ℕ → ℕ
unfolding is_adverse
counted call none close streak = streak
counted call (some prev) close streak = if is_adverse call prev close then streak + 1 else 0

-- ConsecutiveReversalExit.should_exit, for a call or a put
unfoldable pub should_reverse : Bool → ℕ → Reversal → Bool × Reversal
unfolding counted
should_reverse call close e =
    let streak = counted call e.prev_close close e.streak in
    (leb e.reverse_candles streak, record e { streak = streak; prev_close = some close })
