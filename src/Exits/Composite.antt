-- ===== src/Exits/Composite.antt =====
-- CompositeExit of common/exit/composite.py over engines that are an interface: each has a label, a
-- state that is reset, saved and restored, and an answer to a candle. What the engines are shown is
-- of one type, `I`. A snapshot is none where the engine has nothing to save.
pub mod Firing
use algo_trading.Common.{
  ℕ, Bool, true, false, Option, none, some, List, [], ◌∷◌, map, is_some, ◌==◌, if◌then◌else◌,
}
use algo_trading.Common.Dict.{Dict, insert, lookup}

pub record Engine (I E S : Type 0) : Type 0 where
  pub label : E → ℕ
  pub reset : E → E
  pub snapshot : E → Option S
  pub restore : S → E → E
  pub should_exit : I → E → Bool × E

pub record Composite (E : Type 0) : Type 0 where
  pub engines : List E
  pub last_fired : Option E

unfoldable pub first_of {ℓ} : {E : Type ℓ} → Option E → Option E → Option E
first_of none o = o
first_of (some e) o = some e

unfoldable pub fired_as {ℓ} : {E : Type ℓ} → Bool × E → Option E
fired_as (fired, e) = if fired then some e else none

module _ {I E S : Type 0} (engine : Engine I E S) where
  unfoldable pub reset_all : Composite E → Composite E
  reset_all c = record { engines = map engine.reset c.engines; last_fired = none }

  saved : ℕ → Option S → Dict S → Dict S
  saved label none d = d
  saved label (some s) d = insert label s d

  -- The snapshots of engines, in a dict that is built in their order.
  snapshots : List E → Dict S → Dict S
  unfolding saved
  snapshots [] d = d
  snapshots (e ∷ es) d = snapshots es (saved (engine.label e) (engine.snapshot e) d)

  unfoldable pub snapshot_all : Composite E → Dict S
  unfolding snapshots
  snapshot_all c = snapshots c.engines []

  -- A label names the last engine that bears it.
  is_labelled : ℕ → List E → Bool
  is_labelled label [] = false
  is_labelled label (e ∷ es) = if engine.label e == label then true else is_labelled label es

  restore_one : ℕ → S → List E → List E
  unfolding is_labelled
  restore_one label s [] = []
  restore_one label s (e ∷ es) =
      let rest = restore_one label s es in
      if is_labelled label es
      then e ∷ rest
      else if engine.label e == label
      then engine.restore s e ∷ es
      else e ∷ es

  unfoldable pub restore_all : Dict S → List E → List E
  unfolding restore_one
  restore_all [] es = es
  restore_all ((label, s) ∷ d) es = restore_all d (restore_one label s es)

  -- Every engine is shown the candle; the first that fires is kept.
  unfoldable pub ask_all : I → List E → List E × Option E
  unfolding first_of fired_as
  ask_all i [] = ([], none)
  ask_all i (e ∷ es) =
      let answer = engine.should_exit i e in
      let (rest, later) = ask_all i es in (answer.1 ∷ rest, first_of (fired_as answer) later)

  unfoldable pub should_exit_any : I → Composite E → Bool × Composite E
  unfolding ask_all
  should_exit_any i c =
      let (engines, fired) = ask_all i c.engines in
      (is_some fired, record { engines = engines; last_fired = fired })
