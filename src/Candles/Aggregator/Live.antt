-- ===== src/Candles/Aggregator/Live.antt =====
-- Without a flush no call of the aggregator raises: the candles are valid, and no bar is behind one
-- that was published.
use native.Mathlib.Decide.{ℕ_discrete}
use algo_trading.Common.{
  ℕ, ◌≤◌, ◌<◌, ◌≡◌, inl, inr, true, false, some, List, ◌∷◌, arith, Bool-cases,
}
use algo_trading.Common.Dict.{Dict, lookup, insert, lookup-insert}
use algo_trading.Models.{Tick, Candle, ok}
use algo_trading.Candles.Aggregator.{Bar, Aggregator, absorb, freeze, is_published, new_bar}

-- An open bar under the key `k`.
pub record IsBar (k : ℕ) (b : Bar) : Type 0 where
  pub keyed : b.security_id ≡ k
  pub proper : b.start_at < b.end_at
  pub open_above : b.low ≤ b.open_price
  pub open_below : b.open_price ≤ b.high
  pub close_above : b.low ≤ b.close
  pub close_below : b.close ≤ b.high

-- The open bar of the instrument `k` starts after `t`.
pub record Behind (k t : ℕ) (bars : Dict Bar) : Type 0 where
  pub bar : Bar
  pub found : lookup k bars ≡ some bar
  pub later : t < bar.start_at

pub record Live (bars : Dict Bar) (published : List (ℕ × ℕ)) : Type 0 where
  pub bars_ok : (k : ℕ) (b : Bar) → lookup k bars ≡ some b → IsBar k b
  pub behind : (k t : ℕ) → is_published k t published ≡ true → Behind k t bars

pub record IsLive (a : Aggregator) : Type 0 where
  pub positive : 0 < a.interval_seconds
  pub live : Live a.open_bars a.published

abbrev pub candle_of : Bar → Candle
candle_of b = record {
  security_id = b.security_id;
  instrument = b.instrument;
  open_price = b.open_price;
  high = b.high;
  low = b.low;
  close = b.close;
  volume = b.volume;
  start_at = b.start_at;
  end_at = b.end_at;
  tick_count = b.tick_count;
  last_tick_at = b.last_tick_at;
  spans_gap = false;
}

pub freeze_total : (k : ℕ) (b : Bar) → IsBar k b → freeze b ≡ ok (candle_of b)
unfolding freeze
freeze_total k b h = ground arith

pub new_bar-IsBar : (t : Tick) (i j : ℕ) → i < j → IsBar t.security_id (new_bar t i j)
unfolding new_bar
new_bar-IsBar t i j h = ground arith

pub absorb-IsBar : (k : ℕ) (b : Bar) (t : Tick) → IsBar k b → IsBar k (absorb b t)
unfolding absorb
absorb-IsBar k b t h = omega arith

-- A bar is behind the bars into which one was inserted that starts late enough.
insert-Behind :
    (k j t : ℕ) (b : Bar) (bars : Dict Bar)
    → Behind j t bars
    → (j ≡ k → t < b.start_at)
    → Behind j t (insert k b bars)
insert-Behind k j t b bars h late = elim (ℕ_discrete j k) [
  | yes e ↦ record { bar = b; found = ground (arith, lookup-insert j k b bars); later = late e }
  | no ne ↦ record {
    bar = h.bar;
    found = ground (arith, lookup-insert j k b bars, h.found);
    later = h.later;
  }
]

insert-bars_ok :
    (k : ℕ) (b : Bar) (bars : Dict Bar)
    → ((j : ℕ) (x : Bar) → lookup j bars ≡ some x → IsBar j x)
    → IsBar k b
    → (j : ℕ) (x : Bar) → lookup j (insert k b bars) ≡ some x
    → IsBar j x
insert-bars_ok k b bars h ib j x e = ground (arith, lookup-insert j k b bars, h j x)

-- An open bar is replaced by one that starts no earlier.
pub insert-Live :
    (k : ℕ) (b : Bar) (bars : Dict Bar) (p : List (ℕ × ℕ))
    → Live bars p
    → IsBar k b
    → ((old : Bar) → lookup k bars ≡ some old → old.start_at ≤ b.start_at)
    → Live (insert k b bars) p
insert-Live k b bars p h ib le = record {
  bars_ok = insert-bars_ok k b bars h.bars_ok ib;
  behind = λ j t e.
      let was = h.behind j t e in
      insert-Behind k j t b bars was (λ q. ground (arith, was.found, was.later, le was.bar));
}

-- A published bar is replaced by one that starts later.
pub publish-Live :
    (k : ℕ) (old b : Bar) (bars : Dict Bar) (p : List (ℕ × ℕ))
    → Live bars p
    → lookup k bars ≡ some old
    → IsBar k b
    → old.start_at < b.start_at
    → Live (insert k b bars) ((k, old.start_at) ∷ p)
unfolding is_published
publish-Live k old b bars p h e ib lt = record {
  bars_ok = insert-bars_ok k b bars h.bars_ok ib;
  behind = λ j t g. elim (Bool-cases (is_published j t p)) [
    | inl was_published ↦
        (insert-Live k b bars p h ib (λ x f. ground arith)).behind j t was_published
    | inr fresh ↦ record {
      bar = b;
      found = ground (arith, lookup-insert j k b bars);
      later = ground arith;
    }
  ];
}

-- The open bar's own key is not published.
pub open_unpublished :
    (k : ℕ) (b : Bar) (bars : Dict Bar) (p : List (ℕ × ℕ))
    → Live bars p
    → lookup k bars ≡ some b
    → is_published b.security_id b.start_at p ≡ false
open_unpublished k b bars p h e = elim (Bool-cases (is_published b.security_id b.start_at p)) [
  | inl old ↦
      let was = h.behind b.security_id b.start_at old in
      absurd (ground (arith, was.found, was.later, (h.bars_ok k b e).keyed))
  | inr new ↦ new
]
