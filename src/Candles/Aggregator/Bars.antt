-- ===== src/Candles/Aggregator/Bars.antt =====
-- The open bar after ticks of its interval, by a reference summary of the ticks.
use algo_trading.Common.{
  ℕ, ◌+◌, ◌*◌, ◌<◌, min, max, ◌≡◌, refl, sym, ◌∙◌, true, none, some, List, [], ◌∷◌, map, arith,
  length, All,
}
use algo_trading.Common.Dict.{lookup, insert, lookup-insert}
use algo_trading.Models.{Tick, ok}
use algo_trading.Candles.Interval.{SessionWindow, contains, floored, floor_to_interval-ok, second}
use algo_trading.Candles.Aggregator.{Bar, Aggregator, absorb, new_bar, add_to, add_at, add}

-- The tick is in session, for the instrument `k`, in the interval that starts at `start`.
pub record InBucket (w : SessionWindow) (interval k start : ℕ) (t : Tick) : Type 0 where
  pub traded : contains w t.exchange_time ≡ true
  pub keyed : t.security_id ≡ k
  pub bucket : floored (w.zone t.exchange_time) interval ≡ start

-- The states after a list of ticks.
unfoldable pub adds : List Tick → Aggregator → Aggregator
adds [] a = a
adds (t ∷ ts) a = adds ts (add a t).1

unfoldable pub absorbs : List Tick → Bar → Bar
absorbs [] b = b
absorbs (t ∷ ts) b = absorbs ts (absorb b t)

-- The reference: a summary of the prices and quantities of the ticks.
abbrev pub prices : List Tick → List ℕ
prices = map (λ t. t.last_price)

unfoldable pub highest : ℕ → List ℕ → ℕ
highest p [] = p
highest p (q ∷ qs) = max p (highest q qs)

unfoldable pub lowest : ℕ → List ℕ → ℕ
lowest p [] = p
lowest p (q ∷ qs) = min p (lowest q qs)

unfoldable pub last_of : ℕ → List ℕ → ℕ
last_of p [] = p
last_of p (q ∷ qs) = last_of q qs

unfoldable pub traded_quantity : List Tick → ℕ
traded_quantity [] = 0
traded_quantity (t ∷ ts) = t.last_quantity + traded_quantity ts

module _ (k start : ℕ) (t : Tick) (a : Aggregator) (i : 0 < a.interval_seconds)
    (h : InBucket a.session a.interval_seconds k start t) where
  pub add-add_to : add a t ≡ add_to t start a (lookup k a.open_bars)
  unfolding add add_at
  add-add_to = rw (h.traded, floor_to_interval-ok _ _ i, h.bucket, h.keyed)

  pub add_first :
      lookup k a.open_bars ≡ none
      → add a t ≡ (
        ok none,
        record a {
          open_bars =
              insert t.security_id
                (new_bar t start (start + a.interval_seconds * second))
                a.open_bars;
        },
      )
  unfolding add_to
  add_first e = add-add_to ∙ rw e

  pub add_same :
      (b : Bar)
      → lookup k a.open_bars ≡ some b
      → start ≡ b.start_at
      → add a t ≡ (ok none, record a { open_bars = insert t.security_id (absorb b t) a.open_bars })
  unfolding add_to
  add_same b e s = add-add_to ∙ rw e (ground arith)

-- The state `a'` has the bar `b` open under `k`, and otherwise agrees with `a`.
pub record Holds (a : Aggregator) (k : ℕ) (b : Bar) (a' : Aggregator) : Type 0 where
  pub found : lookup k a'.open_bars ≡ some b
  pub recorded : a'.published ≡ a.published
  pub interval : a'.interval_seconds ≡ a.interval_seconds
  pub session : a'.session ≡ a.session

absorb_start : (b : Bar) (t : Tick) → (absorb b t).start_at ≡ b.start_at
unfolding absorb
absorb_start b t = refl

pub adds_same :
    (k start : ℕ) (ts : List Tick) (a : Aggregator) (b : Bar)
    → 0 < a.interval_seconds
    → All (InBucket a.session a.interval_seconds k start) ts
    → lookup k a.open_bars ≡ some b
    → start ≡ b.start_at
    → Holds a k (absorbs ts b) (adds ts a)
unfolding adds absorbs
adds_same k start [] a b i h e s = record {
  found = e;
  recorded = refl;
  interval = refl;
  session = refl;
}
adds_same k start (t ∷ ts) a b i h e s =
    let a' : Aggregator = record a { open_bars = insert t.security_id (absorb b t) a.open_bars } in
    let rest : Holds a' k (absorbs ts (absorb b t)) (adds ts a') =
      adds_same k start ts a' (absorb b t) i h.1
        (ground (arith, lookup-insert k t.security_id (absorb b t) a.open_bars, h.0.keyed))
        (s ∙ sym (absorb_start b t)) in
    rw (add_same k start t a i h.0 b e s) (record {
      found = rest.found;
      recorded = rest.recorded;
      interval = rest.interval;
      session = rest.session;
    })

-- What the bar is after the ticks, by the reference.
pub record Sums (b : Bar) (ts : List Tick) (c : Bar) : Type 0 where
  pub opened : c.open_price ≡ b.open_price
  pub high : c.high ≡ highest b.high (prices ts)
  pub low : c.low ≡ lowest b.low (prices ts)
  pub closed : c.close ≡ last_of b.close (prices ts)
  pub volume : c.volume ≡ b.volume + traded_quantity ts
  pub count : c.tick_count ≡ b.tick_count + length ts
  pub start : c.start_at ≡ b.start_at
  pub finish : c.end_at ≡ b.end_at
  pub keyed : c.security_id ≡ b.security_id
  pub gap : c.spans_feed_gap ≡ b.spans_feed_gap

pub highest-max : (p q : ℕ) (qs : List ℕ) → highest (max p q) qs ≡ max p (highest q qs)
unfolding highest
highest-max p q [] = refl
highest-max p q (r ∷ rs) = omega arith

pub lowest-min : (p q : ℕ) (qs : List ℕ) → lowest (min p q) qs ≡ min p (lowest q qs)
unfolding lowest
lowest-min p q [] = refl
lowest-min p q (r ∷ rs) = omega arith

pub absorbs-Sums : (ts : List Tick) (b : Bar) → Sums b ts (absorbs ts b)
unfolding absorbs absorb highest lowest last_of traded_quantity
absorbs-Sums [] b = ground arith
absorbs-Sums (t ∷ ts) b = ground (
  arith,
  absorbs-Sums ts (absorb b t),
  highest-max b.high t.last_price (prices ts),
  lowest-min b.low t.last_price (prices ts),
)
