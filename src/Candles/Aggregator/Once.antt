-- ===== src/Candles/Aggregator/Once.antt =====
-- No candle is published twice by an aggregator, whatever is asked of it and in what order.
use algo_trading.Common.{
  ℕ, ◌≡◌, refl, inl, inr, Bool, true, false, not, ◌&&◌, Option, none, some, List, [], ◌∷◌, ◌++◌,
  arith, ltb, ◌==◌, All, All-append, Bool-cases, if-holds,
}
use algo_trading.Common.Dict.{lookup, erase}
use algo_trading.Models.{Tick, Candle, Result, ok, err, Result-cases}
use algo_trading.Candles.Interval.{contains}
use algo_trading.Candles.Aggregator.{
  Bar, Aggregator, Flushed, freeze, frozen, is_published, complete, replace_bar, add_to, add_at,
  add, mark_feed_gap, pop_bar, prepend, go_on, flush_keys, flush, chosen_keys,
}

-- What one call may be.
pub data Call : Type 0 where
  adds : Tick → Call
  marks : Option ℕ → Call
  flushes : Option ℕ → Call

-- The candles that a call handed out.
unfoldable pub emitted : Result (Option Candle) → List Candle
emitted (ok none) = []
emitted (ok (some c)) = c ∷ []
emitted (err e) = []

-- A call, and the state after it; a raise is caught, and its writes stay.
unfoldable pub step : Call → Aggregator → List Candle × Aggregator
step (adds t) a = (emitted (add a t).0, (add a t).1)
step (marks k) a = ([], (mark_feed_gap a k).1)
step (flushes k) a = ((flush a k).yielded, (flush a k).after)

unfoldable pub run : List Call → Aggregator → List Candle × Aggregator
run [] a = ([], a)
run (c ∷ cs) a = ((step c a).0 ++ (run cs (step c a).1).0, (run cs (step c a).1).1)

abbrev pub same_key : Candle → Candle → Bool
same_key c d = c.security_id == d.security_id && c.start_at == d.start_at

-- No two of the candles are for one instrument and one start.
abbrev pub Distinct : List Candle → Type 0
Distinct [] = Unit
Distinct (c ∷ cs) = All (λ d. same_key c d ≡ false) cs × Distinct cs

abbrev has : Aggregator → Candle → Bool
has a c = is_published c.security_id c.start_at a.published

record Emits (a : Aggregator) (cs : List Candle) (a' : Aggregator) : Type 0 where
  fresh : All (λ c. has a c ≡ false) cs
  covered : All (λ c. has a' c ≡ true) cs
  grows : (k t : ℕ) → is_published k t a.published ≡ true → is_published k t a'.published ≡ true
  distinct : Distinct cs

Emits-none : (a a' : Aggregator) → a'.published ≡ a.published → Emits a [] a'
Emits-none a a' e = record { fresh = tt; covered = tt; grows = λ k t h. cc; distinct = tt }

apart : (a : Aggregator) (c d : Candle) → has a c ≡ true → has a d ≡ false → same_key c d ≡ false
apart a c d h k = ground arith

apart-All :
    (a : Aggregator) (c : Candle) (ds : List Candle)
    → has a c ≡ true
    → All (λ d. has a d ≡ false) ds
    → All (λ d. same_key c d ≡ false) ds
apart-All a c [] h k = tt
apart-All a c (d ∷ ds) h k = (apart a c d h k.0, apart-All a c ds h k.1)

Distinct-append :
    (a : Aggregator) (cs ds : List Candle)
    → All (λ c. has a c ≡ true) cs
    → All (λ d. has a d ≡ false) ds
    → Distinct cs
    → Distinct ds
    → Distinct (cs ++ ds)
Distinct-append a [] ds h k p q = q
Distinct-append a (c ∷ cs) ds h k p q =
    (All-append _ cs ds p.0 (apart-All a c ds h.0 k), Distinct-append a cs ds h.1 k p.1 q)

module _ (a a' : Aggregator)
    (grows : (k t : ℕ)
      → is_published k t a.published ≡ true
      → is_published k t a'.published ≡ true) where
  covered_mono : (cs : List Candle) → All (λ c. has a c ≡ true) cs → All (λ c. has a' c ≡ true) cs
  covered_mono [] h = tt
  covered_mono (c ∷ cs) h = (grows _ _ h.0, covered_mono cs h.1)

  fresh_mono : (cs : List Candle) → All (λ c. has a' c ≡ false) cs → All (λ c. has a c ≡ false) cs
  fresh_mono [] h = tt
  fresh_mono (c ∷ cs) h = (ground (arith, grows c.security_id c.start_at, h.0), fresh_mono cs h.1)

Emits-then :
    (a b c : Aggregator) (cs ds : List Candle) → Emits a cs b → Emits b ds c → Emits a (cs ++ ds) c
Emits-then a b c cs ds p q = record {
  fresh = All-append _ cs ds p.fresh (fresh_mono a b p.grows ds q.fresh);
  covered = All-append _ cs ds (covered_mono b c q.grows cs p.covered) q.covered;
  grows = λ k t h. q.grows k t (p.grows k t h);
  distinct = Distinct-append b cs ds p.covered q.fresh p.distinct q.distinct;
}

freeze_key :
    (b : Bar) (c : Candle)
    → freeze b ≡ ok c
    → (c.security_id ≡ b.security_id) × (c.start_at ≡ b.start_at)
unfolding freeze
freeze_key b c h = ground arith

Emits-grow : (a a' : Aggregator) (k t : ℕ) → a'.published ≡ (k, t) ∷ a.published → Emits a [] a'
unfolding is_published
Emits-grow a a' k t e = record {
  fresh = tt;
  covered = tt;
  grows = λ j u h. rw e (ground arith);
  distinct = tt;
}

Emits-one :
    (a a' : Aggregator) (c : Candle)
    → a'.published ≡ (c.security_id, c.start_at) ∷ a.published
    → has a c ≡ false
    → Emits a (c ∷ []) a'
unfolding is_published
Emits-one a a' c e new = record {
  fresh = (new, tt);
  covered = (rw e (ground arith), tt);
  grows = λ j u h. rw e (ground arith);
  distinct = (tt, tt);
}

freeze_new :
    (b : Bar) (a : Aggregator) (c : Candle)
    → freeze b ≡ ok c
    → is_published b.security_id b.start_at a.published ≡ false
    → has a c ≡ false
freeze_new b a c h new = ground (arith, freeze_key b c h)

freeze-Emits :
    (b : Bar) (a a' : Aggregator)
    → is_published b.security_id b.start_at a.published ≡ false
    → a'.published ≡ (b.security_id, b.start_at) ∷ a.published
    → Emits a (emitted (frozen (freeze b))) a'
unfolding frozen emitted
freeze-Emits b a a' new e = elim (Result-cases (freeze b)) [
  | inl (c, h) ↦ rw h (
      Emits-one a a' c (rw ((freeze_key b c h).0, (freeze_key b c h).1) e) (freeze_new b a c h new))
  | inr (x, h) ↦ rw h (Emits-grow a a' _ _ e)
]

complete-Emits : (b : Bar) (a : Aggregator) → Emits a (emitted (complete b a).0) (complete b a).1
unfolding complete emitted
complete-Emits b a = elim (Bool-cases (is_published b.security_id b.start_at a.published)) [
  | inl old ↦ rw old (Emits-none a a refl)
  | inr new ↦ elim (Bool-cases b.spans_feed_gap) [
    | inl gap ↦ simp (new, gap) (Emits-grow a _ _ _ refl)
    | inr whole ↦ simp (new, whole) (freeze-Emits b a _ new refl)
  ]
]

Emits-onto :
    (a b c : Aggregator) (cs : List Candle)
    → c.published ≡ b.published
    → Emits a cs b
    → Emits a cs c
Emits-onto a b c cs e h = record {
  fresh = h.fresh;
  covered = rw e h.covered;
  grows = λ k t g. rw e (h.grows k t g);
  distinct = h.distinct;
}

-- A call that returns `r.0` in the state `r.1`.
abbrev Publishes : Aggregator → Result (Option Candle) × Aggregator → Type 0
Publishes a r = Emits a (emitted r.0) r.1

replace_bar-Emits :
    (t : Tick) (i j : ℕ) (a : Aggregator) (r : Result (Option Candle) × Aggregator)
    → Publishes a r
    → Publishes a (replace_bar t i j r)
unfolding replace_bar emitted
replace_bar-Emits t i j a (ok none, b) h = Emits-onto a b _ _ refl h
replace_bar-Emits t i j a (ok (some c), b) h = Emits-onto a b _ _ refl h
replace_bar-Emits t i j a (err e, b) h = h

add_to-Emits :
    (t : Tick) (start : ℕ) (a : Aggregator) (o : Option Bar) → Publishes a (add_to t start a o)
unfolding add_to emitted
add_to-Emits t start a none = Emits-none a _ refl
add_to-Emits t start a (some b) =
    if-holds (Publishes a) (start == b.start_at) _ _ (λ _. Emits-none a _ refl)
      λ _.
        if-holds (Publishes a) (ltb start b.start_at) _ _ (λ _. Emits-none a _ refl)
          λ _. replace_bar-Emits t start _ a (complete b a) (complete-Emits b a)

add_at-Emits : (t : Tick) (a : Aggregator) (r : Result ℕ) → Publishes a (add_at t a r)
unfolding add_at emitted
add_at-Emits t a (ok start) = add_to-Emits t start a (lookup t.security_id a.open_bars)
add_at-Emits t a (err e) = Emits-none a a refl

add-Emits : (a : Aggregator) (t : Tick) → Publishes a (add a t)
unfolding add emitted
add-Emits a t =
    if-holds (Publishes a) (not (contains a.session t.exchange_time)) _ _ (λ _. Emits-none a _ refl)
      (λ _. add_at-Emits t a _)

pop_bar-Emits : (k : ℕ) (a : Aggregator) (o : Option Bar) → Publishes a (pop_bar k a o)
unfolding pop_bar emitted
pop_bar-Emits k a none = Emits-none a a refl
pop_bar-Emits k a (some b) =
    let h = complete-Emits b (record a { open_bars = erase k a.open_bars }) in
    record { fresh = h.fresh; covered = h.covered; grows = h.grows; distinct = h.distinct }

-- The candle of a round comes before those of the rounds that follow.
go_on-Emits :
    (rest : Aggregator → Flushed)
    → ((b : Aggregator) → Emits b (rest b).yielded (rest b).after)
    → (a : Aggregator) (r : Result (Option Candle) × Aggregator) → Publishes a r
    → Emits a (go_on rest r).yielded (go_on rest r).after
unfolding go_on prepend emitted
go_on-Emits rest k a (ok none, b) h = Emits-then a b _ [] _ h (k b)
go_on-Emits rest k a (ok (some c), b) h = Emits-then a b _ (c ∷ []) _ h (k b)
go_on-Emits rest k a (err e, b) h = h

flush_keys-Emits :
    (ks : List ℕ) (a : Aggregator) → Emits a (flush_keys ks a).yielded (flush_keys ks a).after
unfolding flush_keys
flush_keys-Emits [] a = Emits-none a a refl
flush_keys-Emits (k ∷ ks) a =
    go_on-Emits (flush_keys ks) (flush_keys-Emits ks) a _ (pop_bar-Emits k a (lookup k a.open_bars))

step-Emits : (c : Call) (a : Aggregator) → Emits a (step c a).0 (step c a).1
unfolding step mark_feed_gap flush
step-Emits (adds t) a = add-Emits a t
step-Emits (marks k) a = Emits-none a _ refl
step-Emits (flushes k) a = flush_keys-Emits (chosen_keys k a.open_bars) a

run-Emits : (cs : List Call) (a : Aggregator) → Emits a (run cs a).0 (run cs a).1
unfolding run
run-Emits [] a = Emits-none a a refl
run-Emits (c ∷ cs) a =
    Emits-then a (step c a).1 _ (step c a).0 _ (step-Emits c a) (run-Emits cs (step c a).1)

-- Over any sequence of ticks, gap marks and flushes, from any state, no two of the candles handed
-- out are for one instrument and one start, also where calls raise in between.
pub run-Distinct : (cs : List Call) (a : Aggregator) → Distinct (run cs a).0
run-Distinct cs a = (run-Emits cs a).distinct

-- Nor is a candle handed out again whose instrument and start were published before the run.
pub run_new :
    (cs : List Call) (a : Aggregator)
    → All (λ c. is_published c.security_id c.start_at a.published ≡ false) (run cs a).0
run_new cs a = (run-Emits cs a).fresh
