-- ===== src/Broker/Quotes/Recent.antt =====
-- What a quote book answers after a tick, and how many quotes it keeps.
use algo_trading.Common.{
  ℕ, ◌≤◌, ◌<◌, ◌≡◌, refl, ap, ◌∙◌, false, Option, none, some, List, [], ◌∷◌, ◌++◌, length,
  length-append, or_else, arith, All, ltb, leb, ◌==◌, if◌then◌else◌, if-holds, Bool-cases, inl, inr,
}
use algo_trading.Common.Dict.{lookup, lookup-insert}
use algo_trading.Models.{Tick}
use algo_trading.Broker.{Quote}
use algo_trading.Broker.Quotes.{
  QuoteBook, quote_from_tick, drop_front, append_bounded, record_tick, last_quote, latest,
  first_from, after,
}

abbrev pub quotes_of : QuoteBook → ℕ → List Quote
quotes_of b k = or_else (lookup k b.quotes) []

-- A book of positive depth keeps at most that many quotes of an instrument.
unfoldable pub IsBounded : QuoteBook → Type 0
IsBounded b = (0 < b.depth) × ((k : ℕ) → length (quotes_of b k) ≤ b.depth)

last_quote-append : (qs : List Quote) (q : Quote) → last_quote (qs ++ q ∷ []) ≡ some q
unfolding last_quote
last_quote-append [] q = refl
last_quote-append (r ∷ []) q = refl
last_quote-append (r ∷ s ∷ qs) q = last_quote-append (s ∷ qs) q

append_bounded-last :
    (depth : ℕ) (qs : List Quote) (q : Quote)
    → 0 < depth
    → last_quote (append_bounded depth qs q) ≡ some q
unfolding append_bounded drop_front
append_bounded-last depth [] q h =
    let short : ltb depth 1 ≡ false = ground (arith, h) in rw short (last_quote-append [] q)
append_bounded-last depth (r ∷ qs) q h =
    if-holds (λ l. last_quote l ≡ some q) (ltb depth (length (r ∷ qs ++ q ∷ []))) (qs ++ q ∷ [])
      (r ∷ qs ++ q ∷ []) (λ _. last_quote-append qs q) (λ _. last_quote-append (r ∷ qs) q)

append_bounded-length :
    (depth : ℕ) (qs : List Quote) (q : Quote)
    → 0 < depth
    → length qs ≤ depth
    → length (append_bounded depth qs q) ≤ depth
unfolding append_bounded drop_front
append_bounded-length depth [] q h fits =
    let short : ltb depth 1 ≡ false = ground (arith, h) in rw short (omega (arith, h))
append_bounded-length depth (r ∷ qs) q h fits =
    let n = length-append qs (q ∷ []) in
    if-holds (λ l. length l ≤ depth) (ltb depth (length (r ∷ qs ++ q ∷ []))) (qs ++ q ∷ [])
      (r ∷ qs ++ q ∷ []) (λ _. omega (arith, n, fits)) (λ short. ground (arith, short))

quotes_of-record_tick :
    (t : Tick) (b : QuoteBook) (k : ℕ)
    → quotes_of (record_tick t b) k ≡ (
        if k == t.security_id
        then append_bounded b.depth (quotes_of b k) (quote_from_tick t)
        else quotes_of b k)
unfolding record_tick
quotes_of-record_tick t b k = rw lookup-insert (elim (Bool-cases (k == t.security_id)) [
  | inl hit ↦
      let same : t.security_id ≡ k = ground (arith, hit) in
      rw hit (ap (λ j. append_bounded b.depth (quotes_of b j) (quote_from_tick t)) same)
  | inr other ↦ rw other refl
])

-- In a book of positive depth the newest quote of an instrument is the last tick's if the tick is
-- for that instrument, and else the one before.
pub latest-record_tick :
    (t : Tick) (b : QuoteBook) (k : ℕ)
    → 0 < b.depth
    → latest (record_tick t b) k
      ≡ (if k == t.security_id then some (quote_from_tick t) else latest b k)
unfolding latest
latest-record_tick t b k h =
    ap last_quote (quotes_of-record_tick t b k) ∙ elim (Bool-cases (k == t.security_id)) [
      | inl hit ↦ rw hit (append_bounded-last b.depth (quotes_of b k) (quote_from_tick t) h)
      | inr other ↦ rw other refl
    ]

-- A tick keeps the number of quotes of every instrument within the depth.
pub record_tick-IsBounded : (t : Tick) (b : QuoteBook) → IsBounded b → IsBounded (record_tick t b)
unfolding IsBounded
record_tick-IsBounded t b (positive, fits) = (
  unfold record_tick in positive,
  λ k.
      let step = quotes_of-record_tick t b k in
      rw step (
        if-holds (λ l. length l ≤ (record_tick t b).depth) (k == t.security_id)
          (append_bounded b.depth (quotes_of b k) (quote_from_tick t)) (quotes_of b k)
          (λ _.
            unfold record_tick in
            append_bounded-length b.depth (quotes_of b k) (quote_from_tick t) positive (fits k))
          (λ _. unfold record_tick in fits k)),
)

-- What is found among quotes: the first that is not before the deadline, or none is.
unfoldable pub IsFirstFrom : ℕ → List Quote → Option Quote → Type 0
IsFirstFrom deadline qs none = All (λ q. q.quoted_at < deadline) qs
IsFirstFrom deadline qs (some q) =
    (before : List Quote) × (later : List Quote) × (qs ≡ before ++ q ∷ later)
    × All (λ r. r.quoted_at < deadline) before
    × (deadline ≤ q.quoted_at)

shifted :
    (deadline : ℕ) (q : Quote) (qs : List Quote) (o : Option Quote)
    → q.quoted_at < deadline
    → IsFirstFrom deadline qs o
    → IsFirstFrom deadline (q ∷ qs) o
unfolding IsFirstFrom
shifted deadline q qs none early h = (early, h)
shifted deadline q qs (some r) early (before, later, parts, all, due) =
    (q ∷ before, later, ap (λ l. q ∷ l) parts, (early, all), due)

first_from-IsFirstFrom :
    (deadline : ℕ) (qs : List Quote) → IsFirstFrom deadline qs (first_from deadline qs)
unfolding first_from IsFirstFrom
first_from-IsFirstFrom deadline [] = tt
first_from-IsFirstFrom deadline (q ∷ qs) =
    if-holds (IsFirstFrom deadline (q ∷ qs)) (leb deadline q.quoted_at) (some q)
      (first_from deadline qs) (λ due. ([], qs, refl, tt, ground (arith, due)))
      (λ early.
        shifted deadline q qs (first_from deadline qs) (ground (arith, early))
          (first_from-IsFirstFrom deadline qs))

-- `after` answers with the oldest kept quote of the instrument that is not before the deadline, and
-- with none only if all of them are before it.
pub after-IsFirstFrom :
    (b : QuoteBook) (k deadline : ℕ) → IsFirstFrom deadline (quotes_of b k) (after b k deadline)
unfolding after
after-IsFirstFrom b k deadline = first_from-IsFirstFrom deadline (quotes_of b k)
