-- ===== src/Candles/Aggregator/Adds.antt =====
-- `add` and `mark_feed_gap` on a live aggregator: they return, and leave it live.
use algo_trading.Common.{
  ℕ, ◌+◌, ◌*◌, ◌<◌, ◌≡◌, refl, ◌≢◌, inl, inr, true, false, not, Option, none, some, List, ◌∷◌, [],
  arith, ltb, ◌==◌, Bool-cases, if-holds,
}
use algo_trading.Common.Dict.{Dict, lookup, insert}
use algo_trading.Models.{Tick, Candle, Result, ok, err}
use algo_trading.Candles.Interval.{contains, floor_to_interval-ok, second}
use algo_trading.Candles.Aggregator.{
  Bar, Aggregator, absorb, frozen, is_published, new_bar, complete, replace_bar, add_to, add_at,
  add, mark_feed_gap, mark_bar, mark_keys, chosen_keys,
}
use algo_trading.Candles.Aggregator.Live.{
  IsBar, Live, IsLive, candle_of, freeze_total, new_bar-IsBar, absorb-IsBar, insert-Live,
  publish-Live, open_unpublished,
}

-- A call that returned, in a state that is live.
abbrev Returns : Result (Option Candle) × Aggregator → Type 0
Returns r = ((c : Option Candle) × (r.0 ≡ ok c)) × IsLive r.1

-- What completing an unpublished bar leaves.
record Completed (b : Bar) (a : Aggregator) (r : Result (Option Candle) × Aggregator) : Type 0 where
  candle : Option Candle
  returned : r.0 ≡ ok candle
  recorded : r.1.published ≡ (b.security_id, b.start_at) ∷ a.published
  bars : r.1.open_bars ≡ a.open_bars
  interval : r.1.interval_seconds ≡ a.interval_seconds

complete-Completed :
    (k : ℕ) (b : Bar) (a : Aggregator)
    → IsBar k b
    → is_published b.security_id b.start_at a.published ≡ false
    → Completed b a (complete b a)
unfolding complete frozen
complete-Completed k b a ib new = elim (Bool-cases b.spans_feed_gap) [
  | inl gap ↦
      simp (new, gap)
        (record { candle = none; returned = refl; recorded = refl; bars = refl; interval = refl })
  | inr whole ↦
      simp (new, whole, freeze_total k b ib)
        (record {
          candle = some (candle_of b);
          returned = refl;
          recorded = refl;
          bars = refl;
          interval = refl;
        })
]

replaced-Returns :
    (t : Tick) (start finish : ℕ) (b : Bar) (a : Aggregator)
    (r : Result (Option Candle) × Aggregator)
    → Completed b a r
    → 0 < a.interval_seconds
    → Live
        (insert t.security_id (new_bar t start finish) a.open_bars)
        ((b.security_id, b.start_at) ∷ a.published)
    → Returns (replace_bar t start finish r)
unfolding replace_bar
replaced-Returns t start finish b a (ok c, a') h i l =
    ((c, refl), record { positive = rw h.interval i; live = rw (h.bars, h.recorded) l })
replaced-Returns t start finish b a (err e, a') h i l = cc h.returned

module _ (t : Tick) (start : ℕ) (a : Aggregator) (l : IsLive a) where
  abbrev fresh_bar : Bar
  fresh_bar = new_bar t start (start + a.interval_seconds * second)

  fresh-IsBar : IsBar t.security_id fresh_bar
  fresh-IsBar = new_bar-IsBar t start _ (ground (arith, l.positive))

  add_to-none : lookup t.security_id a.open_bars ≡ none → Returns (add_to t start a none)
  unfolding add_to
  add_to-none e = (
    (none, refl),
    record {
      positive = l.positive;
      live =
          insert-Live t.security_id fresh_bar a.open_bars a.published l.live fresh-IsBar
            (λ old f. cc);
    },
  )

  module _ (b : Bar) (e : lookup t.security_id a.open_bars ≡ some b) where
    rollover :
        start ≢ b.start_at
        → ltb start b.start_at ≡ false
        → Returns (replace_bar t start (start + a.interval_seconds * second) (complete b a))
    unfolding new_bar
    rollover ne late =
        let ib = l.live.bars_ok t.security_id b e in
        let key : b.security_id ≡ t.security_id = ib.keyed in
        replaced-Returns t start _ b a (complete b a)
          (complete-Completed t.security_id b a ib
            (open_unpublished t.security_id b a.open_bars a.published l.live e))
          l.positive
          (rw key (
            publish-Live t.security_id b fresh_bar a.open_bars a.published l.live e fresh-IsBar
              (ground arith)))

    add_to-some : Returns (add_to t start a (some b))
    unfolding add_to absorb
    add_to-some =
        if-holds Returns (start == b.start_at) _ _
          (λ same. (
            (none, refl),
            record {
              positive = l.positive;
              live =
                  insert-Live t.security_id (absorb b t) a.open_bars a.published l.live
                    (absorb-IsBar t.security_id b t (l.live.bars_ok t.security_id b e))
                    (λ old f. ground arith);
            },
          ))
          λ ne.
            if-holds Returns (ltb start b.start_at) _ _
              (λ late. ((none, refl), record { positive = l.positive; live = l.live }))
              (λ after. rollover (ground arith) after)

add_to-Returns :
    (t : Tick) (start : ℕ) (a : Aggregator) (o : Option Bar)
    → IsLive a
    → lookup t.security_id a.open_bars ≡ o
    → Returns (add_to t start a o)
add_to-Returns t start a none l e = add_to-none t start a l e
add_to-Returns t start a (some b) l e = add_to-some t start a l b e

-- On a live aggregator `add` returns, whatever the tick, and the aggregator is live after it: no
-- `RuntimeError` for a second publication and no `ValueError` for an invalid candle or interval.
pub add-IsLive :
    (a : Aggregator) (t : Tick)
    → IsLive a
    → ((c : Option Candle) × ((add a t).0 ≡ ok c)) × IsLive (add a t).1
unfolding add add_at
add-IsLive a t l =
    if-holds Returns (not (contains a.session t.exchange_time)) _ _
      (λ _. ((none, refl), record { positive = l.positive; live = l.live }))
      λ _. rw (floor_to_interval-ok _ _ l.positive) (add_to-Returns t _ a _ l refl)

mark_bar-Live :
    (k : ℕ) (n : ℕ) (bars : Dict Bar) (p : List (ℕ × ℕ)) (o : Option Bar)
    → Live bars p
    → lookup k bars ≡ o
    → Live (mark_bar k (n, bars) o).1 p
unfolding mark_bar
mark_bar-Live k n bars p none l e = l
mark_bar-Live k n bars p (some b) l e =
    insert-Live k (record b { spans_feed_gap = true }) bars p l
      (let ib = l.bars_ok k b e in ground arith) (λ old f. ground arith)

mark_keys-Live :
    (ks : List ℕ) (n : ℕ) (bars : Dict Bar) (p : List (ℕ × ℕ))
    → Live bars p
    → Live (mark_keys ks (n, bars)).1 p
unfolding mark_keys
mark_keys-Live [] n bars p l = l
mark_keys-Live (k ∷ ks) n bars p l =
    mark_keys-Live ks _ _ p (mark_bar-Live k n bars p (lookup k bars) l refl)

-- `mark_feed_gap` leaves a live aggregator live.
pub mark_feed_gap-IsLive : (a : Aggregator) (k : Option ℕ) → IsLive a → IsLive (mark_feed_gap a k).1
unfolding mark_feed_gap
mark_feed_gap-IsLive a k l = record {
  positive = l.positive;
  live = mark_keys-Live (chosen_keys k a.open_bars) 0 a.open_bars a.published l.live;
}
