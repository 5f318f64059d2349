-- ===== src/Broker/Matching/Turns.antt =====
-- One turn of the loop of `on_quote`: an order at rest against a quote.
use algo_trading.Common.{
  ℕ, ◌*◌, ◌≤◌, ◌<◌, ◌≡◌, ◌⊎◌, refl, ap, Bool, true, false, Option, none, some, arith, leb,
  if◌then◌else◌, if-holds, inl, inr,
}
use algo_trading.Common.Dict.{lookup, insert, erase}
use algo_trading.Models.{Side, is_buy, buy, sell, Result, ok, err, Result-cases}
use algo_trading.Store.Rows.{OrderIntent}
use algo_trading.Store.Intents.{Order}
use algo_trading.Broker.{Quote}
use algo_trading.Broker.Fills.{Setup, Leg, fill_quantities}
use algo_trading.Broker.Pricing.{at_limit}
use algo_trading.Broker.Paper.{WorkingOrder, PaperBroker, order_of}
use algo_trading.Broker.Paper.Outcomes.{IsResting}
use algo_trading.Broker.Paper.Accepting.{IsFilledOrder, order_of-IsFilledOrder, order_of_refused}
use algo_trading.Broker.Matching.{
  candidate, crosses, limit_leg, settled_at, settle, filled_as, eligible, matched, match_one,
}

-- A price that an order of this limit accepts.
pub IsWithin : Side → ℕ → ℕ → Type 0
IsWithin buy limit price = price ≤ limit
IsWithin sell limit price = limit ≤ price

price-IsWithin :
    (side : Side) (limit price : ℕ)
    → (if is_buy side then leb price limit else leb limit price) ≡ true
    → IsWithin side limit price
unfolding IsWithin
price-IsWithin buy limit price h = ground (arith, h)
price-IsWithin sell limit price h = ground (arith, h)

crosses-IsWithin :
    (i : OrderIntent) (limit : ℕ) (o : Option ℕ)
    → crosses i limit o ≡ true
    → (price : ℕ) × (o ≡ some price) × IsWithin i.side limit price
unfolding crosses
crosses-IsWithin i limit none h = absurd (ground (arith, h))
crosses-IsWithin i limit (some price) h = (price, refl, price-IsWithin i.side limit price h)

-- The price that a quote offers an order of a side: its ask to a purchase and its bid to a sale, or
-- where that is missing and the settings allow it the last price.
pub IsOffered : Bool → Side → Quote → ℕ → Type 0
IsOffered fallback buy q price =
    (q.ask ≡ some price) ⊎ ((q.ask ≡ none) × (fallback ≡ true) × (price ≡ q.last_price))
IsOffered fallback sell q price =
    (q.bid ≡ some price) ⊎ ((q.bid ≡ none) × (fallback ≡ true) × (price ≡ q.last_price))

offered_by :
    (fallback : Bool) (last : ℕ) (book : Option ℕ) (price : ℕ)
    → (elim book as (λ x. Option ℕ) [
      | some best ↦ some best
      | none ↦ if fallback then some last else none
    ])
      ≡ some price
    → (book ≡ some price) ⊎ ((book ≡ none) × (fallback ≡ true) × (price ≡ last))
offered_by fallback last (some best) price h = inl h
offered_by true last none price h = inr (refl, refl, ground (arith, h))
offered_by false last none price h = absurd (ground (arith, h))

candidate_side :
    (s : Setup) (i : OrderIntent) (q : Quote) (side : Side) (price : ℕ)
    → i.side ≡ side
    → candidate s i q ≡ some price
    → IsOffered s.config.allow_ltp_fallback side q price
unfolding candidate IsOffered
candidate_side s i q buy price e h =
    offered_by s.config.allow_ltp_fallback q.last_price q.ask price (rw e at h)
candidate_side s i q sell price e h =
    offered_by s.config.allow_ltp_fallback q.last_price q.bid price (rw e at h)

-- The fill of an order at its limit, at a moment, referred to the last price.
abbrev pub filled_at_limit : ℕ → OrderIntent → Quote → ℕ → Leg
filled_at_limit now i q limit = record {
  intent = i;
  quote = q;
  price = limit;
  method = at_limit;
  latency_applied = true;
  reference_price = q.last_price;
  filled_at = now;
}

-- What a turn for the order at rest under this identifier does: nothing, or a fill that takes the
-- order from those at rest, or an error that changes no order.
unfoldable pub IsTurn :
    (Order → Type 0) → ℕ → PaperBroker → Result (Option Order) × PaperBroker → Type 0
IsTurn P id p (err e, p1) = (p1.orders ≡ p.orders) × (p1.working ≡ p.working)
IsTurn P id p (ok none, p1) = p1 ≡ p
IsTurn P id p (ok (some o), p1) =
    P o × (p1.working ≡ erase id p.working) × (p1.orders ≡ insert id o p.orders)

module _ (divide : ℕ → ℕ → ℕ) (s : Setup) where
  -- What a quote makes of an order at rest that it fills: the order is for the quote's instrument and
  -- has waited, the price that the quote offers its side is within the limit, and the fills are at
  -- the limit.
  pub record IsMatch (now : ℕ) (q : Quote) (w : WorkingOrder) (o : Order) : Type 0 where
    pub security : w.intent.security_id ≡ q.security_id
    pub waited : w.eligible_at ≤ q.quoted_at
    pub limit : ℕ
    pub limited : w.intent.limit_price ≡ some limit
    pub price : ℕ
    pub quoted : IsOffered s.config.allow_ltp_fallback w.intent.side q price
    pub within : IsWithin w.intent.side limit price
    pub first : ℕ
    pub order : IsFilledOrder (filled_at_limit now w.intent q limit) first o

  eligible_parts :
      (q : Quote) (w : WorkingOrder)
      → eligible divide s q w ≡ true
      → (w.intent.security_id ≡ q.security_id) × (w.eligible_at ≤ q.quoted_at)
  unfolding eligible
  eligible_parts q w h = ground (arith, h)

module _ (divide : ℕ → ℕ → ℕ) (s : Setup) (exact : (a b : ℕ) → 0 < b → divide (a * b) b ≡ a) where
  settled-IsTurn :
      (now : ℕ) (q : Quote) (id : ℕ) (w : WorkingOrder) (p : PaperBroker) (h : IsResting id w)
      → w.intent.security_id ≡ q.security_id
      → w.eligible_at ≤ q.quoted_at
      → crosses w.intent h.limit (candidate s w.intent q) ≡ true
      → IsTurn (IsMatch divide s now q w) id p (
          filled_as divide s id p
            (some (order_of divide s (limit_leg divide s now w.intent q h.limit) p)))
  unfolding IsTurn filled_as limit_leg
  settled-IsTurn now q id w p h security waited crossed =
      let l = limit_leg divide s now w.intent q h.limit in
      elim (Result-cases (fill_quantities divide s w.intent q)) [
        | inr (e, split) ↦ rw (order_of_refused divide s exact l p e split) (refl, refl)
        | inl (quantities, split) ↦
            let (o, made, fine) =
              order_of-IsFilledOrder divide s exact l p quantities h.positive split in
            let (price, quoted, within) =
              crosses-IsWithin w.intent h.limit (candidate s w.intent q) crossed in
            rw made (
              record {
                security = security;
                waited = waited;
                limit = h.limit;
                limited = h.limited;
                price = price;
                quoted = candidate_side s w.intent q w.intent.side price refl quoted;
                within = within;
                first = p.fill_sequence;
                order = fine;
              },
              refl,
              refl,
            )
      ]

  settle_limited :
      (now : ℕ) (q : Quote) (w : WorkingOrder) (p : PaperBroker) (limit : ℕ)
      → w.intent.limit_price ≡ some limit
      → settle divide s now w q p ≡ settled_at divide s now w.intent q p (some limit)
  unfolding settle
  settle_limited now q w p limit h = ap (settled_at divide s now w.intent q p) h

  tried-IsTurn :
      (now : ℕ) (q : Quote) (id : ℕ) (w : WorkingOrder) (p : PaperBroker)
      → IsResting id w
      → eligible divide s q w ≡ true
      → IsTurn (IsMatch divide s now q w) id p (filled_as divide s id p (settle divide s now w q p))
  unfolding settled_at
  tried-IsTurn now q id w p h turn =
      let c = crosses w.intent h.limit (candidate s w.intent q) in
      let leg = limit_leg divide s now w.intent q h.limit in
      let settled = some (order_of divide s leg p) in
      let (same, waited) = eligible_parts divide s q w turn in
      rw (settle_limited now q w p h.limit h.limited) (
        if-holds (λ o. IsTurn (IsMatch divide s now q w) id p (filled_as divide s id p o)) c settled
          none (λ crossed. settled-IsTurn now q id w p h same waited crossed)
          (λ _. unfold IsTurn filled_as in refl))

  -- An order at rest under an identifier of its own, with a limit price: its turn fills it at the
  -- limit, and only if the quote is for its instrument, not earlier than the order may trade, and
  -- offers a price within the limit; else its turn changes no order.
  pub match_one-IsTurn :
      (now : ℕ) (q : Quote) (id : ℕ) (w : WorkingOrder) (p : PaperBroker)
      → lookup id p.working ≡ some w
      → IsResting id w
      → IsTurn (IsMatch divide s now q w) id p (match_one divide s now q id p)
  unfolding match_one matched
  match_one-IsTurn now q id w p found h = rw found (
      if-holds (IsTurn (IsMatch divide s now q w) id p) (eligible divide s q w)
        (filled_as divide s id p (settle divide s now w q p)) (ok none, p)
        (tried-IsTurn now q id w p h) (λ _. unfold IsTurn in refl))
