-- ===== src/Feed/Fanout/Totality.antt =====
-- A tick does not stop the hub.
use mathlib.Core.Path.{subst}
use algo_trading.Common.{
  ℕ, ◌≡◌, refl, sym, ap, ◌∙◌, Bool, true, false, Option, none, some, or_else, List, [], ◌∷◌, arith,
  ◌==◌, if◌then◌else◌, Bool-cases, inl, inr, Option-cases,
}
use algo_trading.Common.Dict.{lookup, insert, lookup-insert}
use algo_trading.Models.{Tick, Candle, Result, ok, err}
use algo_trading.Candles.Aggregator.{Aggregator, add}
use algo_trading.Candles.Aggregator.Live.{IsLive}
use algo_trading.Candles.Aggregator.Adds.{add-IsLive}
use algo_trading.Feed.Hub.{
  Hub, SubscriptionRequest, WorkerChannel, apply_pending_subscriptions, apply_each, apply_one,
  granted, grant,
}
use algo_trading.Feed.Fanout.{
  Pace, fan_out, fan_out_if, fan_out_tick, aggregated, count_tick, on_tick,
}

-- Every aggregator, and the one of a new instrument, is live.
unfoldable pub IsSound : Hub → Type 0
IsSound h =
    IsLive h.new_aggregator
    × ((k : ℕ) (a : Aggregator) → lookup k h.aggregators ≡ some a → IsLive a)

-- Two hubs with the same aggregators.
record Same (h g : Hub) : Type 0 where
  new_aggregator : g.new_aggregator ≡ h.new_aggregator
  aggregators : g.aggregators ≡ h.aggregators

Same-IsSound : (h g : Hub) → Same h g → IsSound h → IsSound g
unfolding IsSound
Same-IsSound h g same (fresh, kept) = (
  subst IsLive (sym same.new_aggregator) fresh,
  λ k a found. kept k a (ap (lookup k) (sym same.aggregators) ∙ found),
)

found_or_new :
    (h : Hub) (k : ℕ) → IsSound h → IsLive (or_else (lookup k h.aggregators) h.new_aggregator)
unfolding IsSound
found_or_new h k (fresh, kept) = elim (Option-cases (lookup k h.aggregators)) [
  | inl missing ↦ subst (λ o. IsLive (or_else o h.new_aggregator)) (sym missing) fresh
  | inr (a, found) ↦ subst (λ o. IsLive (or_else o h.new_aggregator)) (sym found) (kept k a found)
]

inserted-IsSound :
    (h : Hub) (k : ℕ) (a : Aggregator)
    → IsSound h
    → IsLive a
    → IsSound (record h { aggregators = insert k a h.aggregators })
unfolding IsSound
inserted-IsSound h k a (fresh, kept) live = (
  fresh,
  λ j b found.
      let here : (if j == k then some a else lookup j h.aggregators) ≡ some b =
        sym (lookup-insert j k a h.aggregators) ∙ found in
      elim (Bool-cases (j == k)) [
        | inl hit ↦
            let same : some a ≡ some b = simp hit at here in
            subst IsLive (ap (λ o. or_else o a) same) live
        | inr other ↦ kept j b (simp other at here)
      ],
)

granted-Same :
    (k : SubscriptionRequest) (h : Hub) (r : Bool × List WorkerChannel) → Same h (granted k h r)
unfolding granted
granted-Same k h (true, cs) = record { new_aggregator = refl; aggregators = refl }
granted-Same k h (false, cs) = record { new_aggregator = refl; aggregators = refl }

apply_each-IsSound :
    (rs : List SubscriptionRequest) (h : Hub) → IsSound h → IsSound (apply_each rs h)
unfolding apply_each apply_one
apply_each-IsSound [] h sound = sound
apply_each-IsSound (q ∷ rs) h sound =
    let r = grant q.strategy_id q.security_id h.channels in
    apply_each-IsSound rs (granted q h r)
      (Same-IsSound h (granted q h r) (granted-Same q h r) sound)

applied-IsSound : (h : Hub) → IsSound h → IsSound (apply_pending_subscriptions h)
unfolding apply_pending_subscriptions
applied-IsSound h sound =
    let emptied = record h { pending = [] } in
    apply_each-IsSound h.pending emptied
      (Same-IsSound h emptied (record { new_aggregator = refl; aggregators = refl }) sound)

module _ (pace : Pace) where
  fanned-Same : (now : ℕ) (o : Option Candle) (h : Hub) → Same h (fan_out_if pace now o h)
  unfolding fan_out_if fan_out
  fanned-Same now none h = record { new_aggregator = refl; aggregators = refl }
  fanned-Same now (some c) h = record { new_aggregator = refl; aggregators = refl }

  aggregated-IsSound :
      (now : ℕ) (tick : Tick) (h : Hub) (r : Result (Option Candle) × Aggregator)
      → IsSound h
      → ((c : Option Candle) × (r.0 ≡ ok c)) × IsLive r.1
      → ((aggregated pace now tick h r).0 ≡ ok tt) × IsSound (aggregated pace now tick h r).1
  unfolding aggregated
  aggregated-IsSound now tick h (err e, a) sound ((c, made), live) = absurd (ground (arith, made))
  aggregated-IsSound now tick h (ok c, a) sound (made, live) =
      let kept = record h { aggregators = insert tick.security_id a h.aggregators } in
      let fanned = fan_out_if pace now c kept in
      (
        refl,
        Same-IsSound fanned (fan_out_tick pace now tick fanned)
            (unfold fan_out_tick in record { new_aggregator = refl; aggregators = refl })
            (Same-IsSound kept fanned (fanned-Same now c kept)
              (inserted-IsSound h tick.security_id a sound live)),
      )

  -- Where every aggregator is live, a tick is taken without a raise, whatever it is and whatever the
  -- queues hold, and every aggregator is live after it.
  pub on_tick-IsSound :
      (now : ℕ) (tick : Tick) (h : Hub)
      → IsSound h
      → ((on_tick pace now tick h).0 ≡ ok tt) × IsSound (on_tick pace now tick h).1
  unfolding on_tick
  on_tick-IsSound now tick h sound =
      let applied = apply_pending_subscriptions h in
      let counted = count_tick pace tick applied in
      let ready =
        Same-IsSound applied counted
          (unfold count_tick in record { new_aggregator = refl; aggregators = refl })
          (applied-IsSound h sound) in
      let a = or_else (lookup tick.security_id counted.aggregators) counted.new_aggregator in
      aggregated-IsSound now tick counted (add a tick) ready
        (add-IsLive a tick (found_or_new counted tick.security_id ready))
