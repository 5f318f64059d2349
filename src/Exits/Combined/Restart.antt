-- ===== src/Exits/Combined/Restart.antt =====
-- A restart between two candles.
use algo_trading.Common.{
  ℕ, ◌≡◌, ◌⊎◌, refl, sym, ap, Bool, true, false, Option, none, some, is_some, arith, inl, inr,
}
use algo_trading.Models.{Candle, ExitReason}
use algo_trading.Engine.Trades.{OpenPosition}
use algo_trading.Exits.Closes.{
  HighestClose, reset_trail, snapshot_trail, restore_trail, momentum_low_exit, should_trail,
}
use algo_trading.Exits.Combined.{
  Combined, reset_combined, snapshot_combined, restore_combined, or_kept, should_combined,
}

-- A trail is active only with an extreme.
unfoldable pub IsConsistent : HighestClose → Type 0
IsConsistent t = (t.activated ≡ false) ⊎ (is_some t.extreme ≡ true)

restored :
    (t : HighestClose) (o : Option ℕ) (active : Bool)
    → (active ≡ false) ⊎ (is_some o ≡ true)
    → restore_trail (snapshot_trail (record t { extreme = o; activated = active })) (reset_trail t)
      ≡ record t { extreme = o; activated = active }
unfolding restore_trail snapshot_trail reset_trail
restored t (some x) active h = refl
restored t none active (inl h) = ap (λ a. record t { extreme = none; activated = a }) (sym h)
restored t none active (inr h) = absurd (ground (arith, h))

-- A trail that is active only with an extreme is what another of the same settings, whatever it held,
-- becomes when it is reset and restored from its snapshot.
pub restore_trail-snapshot_trail :
    (t : HighestClose) (x : Option ℕ) (active : Bool)
    → IsConsistent t
    → restore_trail (snapshot_trail t) (reset_trail (record t { extreme = x; activated = active }))
      ≡ t
unfolding IsConsistent reset_trail
restore_trail-snapshot_trail t x active h = restored t t.extreme t.activated h

kept_or_none : (o : Option ℕ) → or_kept o none ≡ o
unfolding or_kept
kept_or_none none = refl
kept_or_none (some x) = refl

-- What an exit of the same settings may hold before it is restored.
pub record Stale : Type 0 where
  pub extreme : Option ℕ
  pub activated : Bool
  pub highest_close : Option ℕ
  pub lowest_close : Option ℕ
  pub suppress : Bool
  pub reason : ExitReason

-- What a new process makes of the snapshot: an exit of the same settings, reset and restored.
unfoldable pub restarted : Stale → Combined → Combined
unfolding reset_combined snapshot_combined restore_combined
restarted o e = restore_combined (snapshot_combined e) (
    reset_combined (record e {
      trail = record e.trail { extreme = o.extreme; activated = o.activated };
      momentum_fired = true;
      trail_fired = true;
      highest_close = o.highest_close;
      lowest_close = o.lowest_close;
      suppress_momentum_once = o.suppress;
      exit_reason = o.reason;
    }))

-- Two exits that differ at most in the reason and the flag that a previous candle left.
record SameTrail (e f : Combined) : Type 0 where
  trail : f.trail ≡ e.trail
  highest_close : f.highest_close ≡ e.highest_close
  lowest_close : f.lowest_close ≡ e.lowest_close
  suppress : f.suppress_momentum_once ≡ e.suppress_momentum_once

-- The first candle that a restored exit is shown: the previous candle is lost.
first_lem :
    (p : OpenPosition) (c : Candle) (prev : Option Candle) (o : Stale) (e : Combined)
    → IsConsistent e.trail
    → let (fired, after) = should_combined p c prev e in
      let (fired1, after1) = should_combined p c none (restarted o e) in
      (after1.momentum_fired ≡ false)
      × (after1.trail_fired ≡ after.trail_fired)
      × (fired1 ≡ after.trail_fired)
      × SameTrail after after1
unfolding restarted should_combined momentum_low_exit
first_lem p c prev o e h =
    rw
      (
        restore_trail-snapshot_trail e.trail o.extreme o.activated h,
        kept_or_none e.highest_close,
        kept_or_none e.lowest_close,
      )
      (
        refl,
        refl,
        refl,
        record { trail = refl; highest_close = refl; lowest_close = refl; suppress = refl },
      )

-- Exits that have the same trail answer alike.
next_lem :
    (p : OpenPosition) (c : Candle) (prev : Option Candle) (e f : Combined)
    → SameTrail e f
    → let (fired, after) = should_combined p c prev e in
      let (fired1, after1) = should_combined p c prev f in
      (fired1 ≡ fired)
      × (after1.momentum_fired ≡ after.momentum_fired)
      × (after1.trail_fired ≡ after.trail_fired)
      × (snapshot_combined after1 ≡ snapshot_combined after)
unfolding should_combined should_trail snapshot_combined
next_lem p c prev e f h =
    rw (h.trail, h.highest_close, h.lowest_close, h.suppress) (refl, refl, refl, refl)

-- An exit whose trail is active only with an extreme, and one of the same settings that is reset,
-- whatever it held, and restored from the snapshot of the first, and so has lost the previous candle
-- and a gap to pass over: on the first candle the
-- restored one does not fire for momentum and fires exactly if the trail of the other does; on the
-- next candle, with the first as the previous one, the two give the same answer, for the same two
-- rules, and have the same snapshot after it.
pub should_combined-restarted :
    (p : OpenPosition) (c next : Candle) (prev : Option Candle) (o : Stale) (e : Combined)
    → IsConsistent e.trail
    → let (fired, after) = should_combined p c prev e in
      let (fired1, after1) = should_combined p c none (restarted o e) in
      let (then_fired, then_after) = should_combined p next (some c) after in
      let (then_fired1, then_after1) = should_combined p next (some c) after1 in
      (after1.momentum_fired ≡ false)
      × (after1.trail_fired ≡ after.trail_fired)
      × (fired1 ≡ after.trail_fired)
      × (then_fired1 ≡ then_fired)
      × (then_after1.momentum_fired ≡ then_after.momentum_fired)
      × (then_after1.trail_fired ≡ then_after.trail_fired)
      × (snapshot_combined then_after1 ≡ snapshot_combined then_after)
should_combined-restarted p c next prev o e h =
    let (quiet, trailing, answer, same) = first_lem p c prev o e h in
    let (fired, momentum, trail, snapshot) = next_lem p next (some c) _ _ same in
    (quiet, trailing, answer, fired, momentum, trail, snapshot)
