-- ===== src/Exits/Composite/Firing.antt =====
-- What a composite answers, and what its engines see.
use algo_trading.Common.{
  ◌≡◌, refl, ap, Bool, true, false, Option, none, some, List, [], ◌∷◌, ◌++◌, map, All, is_some,
}
use algo_trading.Exits.Composite.{Engine, Composite, first_of, fired_as, ask_all, should_exit_any}

module _ {I E S : Type 0} (engine : Engine I E S) where
  -- The engine that fires first on a candle: those before it do not fire.
  pub IsFirst : I → List E → Option E → Type 0
  IsFirst i es none = All (λ e. (engine.should_exit i e).0 ≡ false) es
  IsFirst i es (some after) =
      (before : List E) × (e : E) × (later : List E) × (es ≡ before ++ e ∷ later)
      × All (λ d. (engine.should_exit i d).0 ≡ false) before
      × (engine.should_exit i e ≡ (true, after))

  later-IsFirst :
      (i : I) (e : E) (es : List E) (o : Option E)
      → (engine.should_exit i e).0 ≡ false
      → IsFirst i es o
      → IsFirst i (e ∷ es) o
  unfolding IsFirst
  later-IsFirst i e es none quiet h = (quiet, h)
  later-IsFirst i e es (some after) quiet (before, f, later, parts, silent, fires) =
      (e ∷ before, f, later, ap (λ l. e ∷ l) parts, (quiet, silent), fires)

  asked-IsFirst :
      (i : I) (e : E) (es : List E) (o : Option E) (answer : Bool × E)
      → engine.should_exit i e ≡ answer
      → IsFirst i es o
      → IsFirst i (e ∷ es) (first_of (fired_as answer) o)
  unfolding first_of fired_as
  asked-IsFirst i e es o (true, after) same h = unfold IsFirst in ([], e, es, refl, tt, same)
  asked-IsFirst i e es o (false, after) same h =
      later-IsFirst i e es o (ap (λ (r : Bool × E). r.0) same) h

  ask_all-IsFirst :
      (i : I) (es : List E)
      → ((ask_all engine i es).0 ≡ map (λ e. (engine.should_exit i e).1) es)
        × IsFirst i es (ask_all engine i es).1
  unfolding ask_all
  ask_all-IsFirst i [] = (refl, unfold IsFirst in tt)
  ask_all-IsFirst i (e ∷ es) =
      let rest = ask_all-IsFirst i es in
      (
        ap (λ l. (engine.should_exit i e).1 ∷ l) rest.0,
        asked-IsFirst i e es (ask_all engine i es).1 (engine.should_exit i e) refl rest.1,
      )

  -- A candle is shown to every engine, whether one before it fires or not. The answer is to exit
  -- exactly if an engine is named, and that is the first that fires; none is named only if none
  -- fires.
  pub should_exit_any-IsFirst :
      (i : I) (c : Composite E)
      → let (answer, after) = should_exit_any engine i c in
        (answer ≡ is_some after.last_fired)
        × (after.engines ≡ map (λ e. (engine.should_exit i e).1) c.engines)
        × IsFirst i c.engines after.last_fired
  unfolding should_exit_any
  should_exit_any-IsFirst i c = let asked = ask_all-IsFirst i c.engines in (refl, asked.0, asked.1)
