-- ===== src/Exits/Closes/Extremes.antt =====
-- The trail from the best close over the candles it is shown.
use mathlib.Core.Path.{subst}
use algo_trading.Common.{
  ℕ, ◌*◌, ◌≡◌, ◌↔◌, refl, sym, ap, ◌∙◌, Bool, true, false, Option, none, some, List, [], ◌∷◌, arith,
  ◌&&◌, not, if-holds,
}
use algo_trading.Common.Int.{ℤ, pos, ◌*ℤ◌, ◌≤ℤ◌, leb_ℤ}
use algo_trading.Models.{Candle}
use algo_trading.Engine.Trades.{OpenPosition}
use algo_trading.Exits.Closes.Best.{
  best_close, rises, behind, IsBest, best_close-IsBest, retraced-behind, percents, is_long-rises,
}
use algo_trading.Exits.Closes.{
  is_long, TrailType, points, percentage, HighestClose, reset_trail, extended, retraced,
  retraced_percentage, trailed, should_trail,
}

-- The state after candles, the newest first.
unfoldable pub after_candles : OpenPosition → List Candle → HighestClose → HighestClose
after_candles p [] e = e
after_candles p (c ∷ cs) e = (should_trail p c (after_candles p cs e)).1

-- What makes an exit due at a best close: to lie behind it by the points, or by the hundredths of a
-- percent of it.
unfoldable pub IsDue : TrailType → HighestClose → Bool → ℕ → ℕ → Type 0
IsDue points e long x close = e.trail_points ≤ℤ behind long x close
IsDue percentage e long x close = e.trail_percentage *ℤ pos x ≤ℤ behind long x close *ℤ pos 10000

extreme_of : Bool → List Candle → Option ℕ
extreme_of long [] = none
extreme_of long (c ∷ cs) = some (best_close long c cs)

extended_best :
    (long : Bool) (c : Candle) (cs : List Candle)
    → extended long (extreme_of long cs) c.close ≡ best_close long c cs
unfolding extended extreme_of best_close
extended_best long c [] = refl
extended_best long c (d ∷ cs) = refl

-- An exit with the settings of another and the extreme of candles.
record Has (e : HighestClose) (x : Option ℕ) (f : HighestClose) : Type 0 where
  extreme : f.extreme ≡ x
  basis : f.basis ≡ e.basis
  trail_type : f.trail_type ≡ e.trail_type
  trail_points : f.trail_points ≡ e.trail_points
  trail_percentage : f.trail_percentage ≡ e.trail_percentage
  activation_enabled : f.activation_enabled ≡ e.activation_enabled

waiting : (a b : Bool) → a ≡ false → (a && b) ≡ true → ⊥
waiting true b off h = absurd (ground (arith, off))
waiting false b off h = absurd (ground (arith, h))

-- The answer and the state of a trail without an activation, or with an active one.
record Answers (t : TrailType) (e : HighestClose) (long : Bool) (x close : ℕ)
    (r : Bool × HighestClose) : Type 0 where
  due : (r.0 ≡ true) ↔ IsDue t e long x close
  has : Has e (some x) r.1

compared : (a b : ℤ) → (leb_ℤ a b ≡ true) ↔ (a ≤ℤ b)
compared a b = ground arith

seen-Has : (e : HighestClose) (x : ℕ) → Has e (some x) (record e { extreme = some x })
seen-Has e x = record {
  extreme = refl;
  basis = refl;
  trail_type = refl;
  trail_points = refl;
  trail_percentage = refl;
  activation_enabled = refl;
}

trailed-Answers :
    (t : TrailType) (e : HighestClose) (long : Bool) (x entry close : ℕ)
    → e.activation_enabled ≡ false
    → IsBest long x close
    → Answers t e long x close (trailed t e long x entry close)
unfolding trailed IsDue
trailed-Answers points e long x entry close off best = record {
  due =
      subst
        (λ d. (leb_ℤ e.trail_points (pos (retraced long x close)) ≡ true) ↔ (e.trail_points ≤ℤ d))
        (retraced-behind long x close best) (compared e.trail_points (pos (retraced long x close)));
  has = seen-Has e x;
}
trailed-Answers percentage e long x entry close off best =
    let far =
      percents (retraced long x close)
      ∙ ap (λ d. d *ℤ pos 10000) (retraced-behind long x close best) in
    let due : (retraced_percentage e long x close ≡ true) ↔ IsDue percentage e long x close =
      unfold retraced_percentage IsDue in
      subst
        (λ d.
          (leb_ℤ (e.trail_percentage *ℤ pos x) (pos (retraced long x close * 10000)) ≡ true)
          ↔ (e.trail_percentage *ℤ pos x ≤ℤ d))
        far (compared (e.trail_percentage *ℤ pos x) (pos (retraced long x close * 10000))) in
    if-holds (Answers percentage e long x close) (e.activation_enabled && not e.activated) _ _
      (λ waits. absurd (waiting e.activation_enabled (not e.activated) off waits))
      (λ _. record { due = due; has = seen-Has e x })

Has_trans : (e f g : HighestClose) (x y : Option ℕ) → Has e x f → Has f y g → Has e y g
Has_trans e f g x y h k = record {
  extreme = k.extreme;
  basis = k.basis ∙ h.basis;
  trail_type = k.trail_type ∙ h.trail_type;
  trail_points = k.trail_points ∙ h.trail_points;
  trail_percentage = k.trail_percentage ∙ h.trail_percentage;
  activation_enabled = k.activation_enabled ∙ h.activation_enabled;
}

-- The extreme that one more candle makes of the candles before it.
next_extreme :
    (p : OpenPosition) (c : Candle) (cs : List Candle) (e f : HighestClose)
    → Has e (extreme_of (is_long e.basis p) cs) f
    → extended (is_long f.basis p) f.extreme c.close ≡ best_close (is_long e.basis p) c cs
next_extreme p c cs e f h = rw (h.extreme, h.basis) (extended_best (is_long e.basis p) c cs)

should_trail-Answers :
    (p : OpenPosition) (c : Candle) (cs : List Candle) (e f : HighestClose)
    → e.activation_enabled ≡ false
    → Has e (extreme_of (is_long e.basis p) cs) f
    → Answers f.trail_type f
        (is_long f.basis p)
        (best_close (is_long e.basis p) c cs)
        c.close
        (should_trail p c f)
unfolding should_trail
should_trail-Answers p c cs e f off h =
    let same = next_extreme p c cs e f h in
    let best = best_close-IsBest (is_long e.basis p) c cs in
    subst (λ x. Answers f.trail_type f (is_long f.basis p) x c.close (should_trail p c f)) same
      (trailed-Answers f.trail_type f (is_long f.basis p) _ p.entry_price c.close
        (h.activation_enabled ∙ off)
        (subst (λ b. IsBest (is_long b p) (extended (is_long f.basis p) f.extreme c.close) c.close)
          (sym h.basis) (subst (λ x. IsBest (is_long e.basis p) x c.close) (sym same) best)))

after_candles-Has :
    (p : OpenPosition) (cs : List Candle) (e : HighestClose)
    → e.activation_enabled ≡ false
    → Has e (extreme_of (is_long e.basis p) cs) (after_candles p cs (reset_trail e))
unfolding after_candles extreme_of
after_candles-Has p [] e off =
    unfold reset_trail in
    record {
      extreme = refl;
      basis = refl;
      trail_type = refl;
      trail_points = refl;
      trail_percentage = refl;
      activation_enabled = refl;
    }
after_candles-Has p (c ∷ cs) e off =
    let f = after_candles p cs (reset_trail e) in
    let h = after_candles-Has p cs e off in
    let a = should_trail-Answers p c cs e f off h in
    Has_trans e f (should_trail p c f).1 (extreme_of (is_long e.basis p) cs)
      (extreme_of (is_long e.basis p) (c ∷ cs)) h a.has

-- The settings decide when an exit is due.
IsDue_same :
    (t : TrailType) (e f : HighestClose) (x : Option ℕ) (long : Bool) (y close : ℕ)
    → Has e x f
    → IsDue t f long y close ≡ IsDue t e long y close
unfolding IsDue
IsDue_same points e f x long y close h = ap (λ n. n ≤ℤ behind long y close) h.trail_points
IsDue_same percentage e f x long y close h =
    ap (λ n. n *ℤ pos y ≤ℤ behind long y close *ℤ pos 10000) h.trail_percentage

due_long :
    (p : OpenPosition) (c : Candle) (cs : List Candle) (e : HighestClose)
    → e.activation_enabled ≡ false
    → let long = is_long e.basis p in
      ((should_trail p c (after_candles p cs (reset_trail e))).0 ≡ true)
      ↔ IsDue e.trail_type e long (best_close long c cs) c.close
due_long p c cs e off =
    let f = after_candles p cs (reset_trail e) in
    let h = after_candles-Has p cs e off in
    let long = is_long e.basis p in
    let best = best_close long c cs in
    let due = (should_trail-Answers p c cs e f off h).due in
    subst (λ t. ((should_trail p c f).0 ≡ true) ↔ IsDue t e long best c.close) h.trail_type
      (subst (λ T. ((should_trail p c f).0 ≡ true) ↔ T)
        (IsDue_same f.trail_type e f (extreme_of long cs) long best c.close h)
        (subst
          (λ b. ((should_trail p c f).0 ≡ true) ↔ IsDue f.trail_type f (is_long b p) best c.close)
          h.basis due))

-- A trail without an activation: after a reset and any candles, a further candle asks for an exit
-- exactly if its close lies behind the best of all the closes, its own included, by at least the
-- trailing points, or by at least the percentage of that best close. The best is the highest for a
-- bought position, or for a call where the option decides, and the lowest otherwise.
pub should_trail-best_close :
    (p : OpenPosition) (c : Candle) (cs : List Candle) (e : HighestClose)
    → e.activation_enabled ≡ false
    → let long = rises e.basis p in
      ((should_trail p c (after_candles p cs (reset_trail e))).0 ≡ true)
      ↔ IsDue e.trail_type e long (best_close long c cs) c.close
should_trail-best_close p c cs e off =
    subst
      (λ long.
        ((should_trail p c (after_candles p cs (reset_trail e))).0 ≡ true)
        ↔ IsDue e.trail_type e long (best_close long c cs) c.close)
      (is_long-rises e.basis p) (due_long p c cs e off)
