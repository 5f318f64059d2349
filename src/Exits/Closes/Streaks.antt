-- ===== src/Exits/Closes/Streaks.antt =====
-- The reversal exit over the closes it is shown.
use algo_trading.Common.{
  ℕ, ◌+◌, ◌≤◌, ◌≡◌, ◌↔◌, refl, ap, Bool, true, false, Option, none, some, List, [], ◌∷◌, arith, leb,
  ltb, if◌then◌else◌,
}
use algo_trading.Exits.Closes.{Reversal, reset_reversal, is_adverse, counted, should_reverse}

-- The state after closes, the newest first.
unfoldable pub after_closes : Bool → List ℕ → Reversal → Reversal
after_closes call [] e = e
after_closes call (c ∷ cs) e = (should_reverse call c (after_closes call cs e)).1

-- The reference: whether a close is worse than the one before, lower for a call and higher for a put.
unfoldable pub is_worse : Bool → ℕ → ℕ → Bool
is_worse true before close = ltb close before
is_worse false before close = ltb before close

-- The reference: how many of the newest closes were each worse than the one before.
unfoldable pub adverse_run : Bool → List ℕ → ℕ
unfolding is_worse
adverse_run call [] = 0
adverse_run call (c ∷ []) = 0
adverse_run call (c ∷ d ∷ cs) =
    let earlier = adverse_run call (d ∷ cs) in if is_worse call d c then earlier + 1 else 0

newest : List ℕ → Option ℕ
newest [] = none
newest (c ∷ cs) = some c

-- The state that a list of closes leads to.
record IsAfter (call : Bool) (e : Reversal) (cs : List ℕ) (f : Reversal) : Type 0 where
  streak : f.streak ≡ adverse_run call cs
  prev_close : f.prev_close ≡ newest cs
  reverse_candles : f.reverse_candles ≡ e.reverse_candles

is_adverse-is_worse : (call : Bool) (d c : ℕ) → is_adverse call d c ≡ is_worse call d c
unfolding is_adverse is_worse
is_adverse-is_worse true d c = refl
is_adverse-is_worse false d c = refl

counted_run :
    (call : Bool) (c : ℕ) (cs : List ℕ)
    → counted call (newest cs) c (adverse_run call cs) ≡ adverse_run call (c ∷ cs)
unfolding counted newest adverse_run
counted_run call c [] = refl
counted_run call c (d ∷ cs) =
    ap (λ b. if b then adverse_run call (d ∷ cs) + 1 else 0) (is_adverse-is_worse call d c)

after_closes-IsAfter :
    (call : Bool) (cs : List ℕ) (e : Reversal)
    → IsAfter call e cs (after_closes call cs (reset_reversal e))
unfolding after_closes should_reverse
after_closes-IsAfter call [] e =
    unfold reset_reversal adverse_run newest in
    record { streak = refl; prev_close = refl; reverse_candles = refl }
after_closes-IsAfter call (c ∷ cs) e =
    let h = after_closes-IsAfter call cs e in
    record {
      streak = rw (h.prev_close, h.streak) (counted_run call c cs);
      prev_close = unfold newest in refl;
      reverse_candles = h.reverse_candles;
    }

fires : (n streak : ℕ) → (leb n streak ≡ true) ↔ (n ≤ streak)
fires n streak = ground arith

-- After a reset and any closes, a further close asks for an exit exactly if at least the configured
-- number of the newest closes were each worse than the one before, lower for a call and higher for a
-- put.
pub should_reverse-adverse_run :
    (call : Bool) (c : ℕ) (cs : List ℕ) (e : Reversal)
    → ((should_reverse call c (after_closes call cs (reset_reversal e))).0 ≡ true)
      ↔ (e.reverse_candles ≤ adverse_run call (c ∷ cs))
unfolding should_reverse
should_reverse-adverse_run call c cs e =
    let h = after_closes-IsAfter call cs e in
    rw (h.prev_close, h.streak, counted_run call c cs, h.reverse_candles)
      (fires e.reverse_candles (adverse_run call (c ∷ cs)))
