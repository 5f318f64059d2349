-- ===== src/Broker/Matching.antt =====
-- `on_quote` of common/broker/paper.py: the orders at rest against a quote.
pub mod Turns
pub mod Resting
pub mod Calls
use algo_trading.Common.{
  ℕ, Bool, true, false, ◌||◌, not, Option, none, some, List, [], ◌∷◌, map, leb, ltb, ◌==◌,
  if◌then◌else◌,
}
use algo_trading.Common.Dict.{Dict, lookup, insert, erase}
use algo_trading.Models.{is_buy, Error, Result, ok, err, key_error}
use algo_trading.Store.Rows.{OrderIntent}
use algo_trading.Store.Intents.{Order}
use algo_trading.Broker.{Quote}
use algo_trading.Broker.Pricing.{at_limit}
use algo_trading.Broker.Fills.{Setup, Leg}
use algo_trading.Broker.Paper.{WorkingOrder, PaperBroker, order_of}

-- The price that an order may trade at: its side of the book, or the last one.
unfoldable pub candidate : Setup → OrderIntent → Quote → Option ℕ
candidate s i q = elim (if is_buy i.side then q.ask else q.bid) [
  | some price ↦ some price
  | none ↦ if s.config.allow_ltp_fallback then some q.last_price else none
]

unfoldable pub crosses : OrderIntent → ℕ → Option ℕ → Bool
crosses i limit none = false
crosses i limit (some price) = if is_buy i.side then leb price limit else leb limit price

module _ (divide : ℕ → ℕ → ℕ) (s : Setup) where
  -- The fill at the limit price.
  unfoldable pub limit_leg : ℕ → OrderIntent → Quote → ℕ → Leg
  limit_leg now i q limit = record {
    intent = i;
    quote = q;
    price = limit;
    method = at_limit;
    latency_applied = true;
    reference_price = q.last_price;
    filled_at = now;
  }

  -- The order that the quote fills, none if it fills none.
  settled_at :
      ℕ → OrderIntent → Quote → PaperBroker → Option ℕ → Option (Result Order × PaperBroker)
  unfolding crosses candidate limit_leg order_of
  settled_at now i q p none = none
  settled_at now i q p (some limit) =
      if crosses i limit (candidate s i q)
      then some (order_of divide s (limit_leg now i q limit) p)
      else none

  unfoldable pub settle :
      ℕ → WorkingOrder → Quote → PaperBroker → Option (Result Order × PaperBroker)
  unfolding settled_at
  settle now w q p = settled_at now w.intent q p w.intent.limit_price

  -- What a turn of the loop makes of a settled order: the order, if any, and the broker.
  filled_as :
      ℕ → PaperBroker → Option (Result Order × PaperBroker) → Result (Option Order) × PaperBroker
  filled_as id p none = (ok none, p)
  filled_as id p (some (err e, p1)) = (err e, p1)
  filled_as id p (some (ok o, p1)) =
      (ok (some o), record p1 { working = erase id p1.working; orders = insert id o p1.orders })

  eligible : Quote → WorkingOrder → Bool
  eligible q w =
      if w.intent.security_id == q.security_id then leb w.eligible_at q.quoted_at else false

  matched : ℕ → Quote → ℕ → PaperBroker → Option WorkingOrder → Result (Option Order) × PaperBroker
  unfolding filled_as settle eligible
  matched now q id p none = (err key_error, p)
  matched now q id p (some w) =
      if eligible q w then filled_as id p (settle now w q p) else (ok none, p)

  unfoldable pub match_one : ℕ → Quote → ℕ → PaperBroker → Result (Option Order) × PaperBroker
  unfolding matched
  match_one now q id p = matched now q id p (lookup id p.working)

  with_order : Option Order → Result (List Order) → Result (List Order)
  with_order o (err e) = err e
  with_order none (ok os) = ok os
  with_order (some o) (ok os) = ok (o ∷ os)

  continued :
      Result (Option Order) × PaperBroker
      → Result (List Order) × PaperBroker
      → Result (List Order) × PaperBroker
  unfolding with_order
  continued (err e, p) rest = (err e, p)
  continued (ok o, p) (os, p1) = (with_order o os, p1)

  -- The loop over the keys; an error ends it.
  unfoldable pub match_all : ℕ → Quote → List ℕ → PaperBroker → Result (List Order) × PaperBroker
  unfolding continued match_one
  match_all now q [] p = (ok [], p)
  match_all now q (id ∷ ids) p =
      let turn = match_one now q id p in
      let rest = match_all now q ids turn.1 in continued turn rest

  unfoldable pub keys : Dict WorkingOrder → List ℕ
  keys d = map (λ e. e.0) d

  unfoldable pub on_quote : ℕ → Quote → PaperBroker → Result (List Order) × PaperBroker
  unfolding match_all keys
  on_quote now q p = match_all now q (keys p.working) p
