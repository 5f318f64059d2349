-- ===== src/Store/Fills/Totals.antt =====
-- The totals of an order are those of its recorded fills.
use algo_trading.Common.{
  ℕ, ◌≡◌, ◌+◌, refl, true, false, Option, List, [], ◌∷◌, ◌++◌, arith, ◌==◌, if◌then◌else◌, if-holds,
  All,
}
use algo_trading.Models.{OrderStatus}
use algo_trading.Store.Rows.{FillRow, OrderRow, Database}
use algo_trading.Store.Positions.{upsert_position}
use algo_trading.Store.States.{touch_strategy_state}
use algo_trading.Store.Fills.{
  Apply, is_recorded, filled_quantity, set_order, record_fill_quote, insert_fill, apply_new,
  apply_fill, has_order,
}

-- The orders with this number hold the sum of the quantities of their recorded fills.
pub IsTotalled : ℕ → Database → Type 0
IsTotalled j db = All (λ o. o.id ≡ j → o.filled_quantity ≡ filled_quantity j db.fills) db.orders

pub filled_quantity-append :
    (j : ℕ) (rs : List FillRow) (r : FillRow)
    → filled_quantity j (rs ++ r ∷ [])
      ≡ filled_quantity j rs + (if r.order_id == j then r.fill.quantity else 0)
unfolding filled_quantity
filled_quantity-append j [] r = ground arith
filled_quantity-append j (x ∷ xs) r = ground (arith, filled_quantity-append j xs r)

set_order-totalled :
    (j q : ℕ) (status : OrderStatus) (average : Option ℕ) (now : ℕ) (os : List OrderRow)
    → All (λ o. o.id ≡ j → o.filled_quantity ≡ q) (set_order j status q average now os)
unfolding set_order
set_order-totalled j q status average now [] = tt
set_order-totalled j q status average now (o ∷ os) = (
  if-holds (λ o'. o'.id ≡ j → o'.filled_quantity ≡ q) (o.id == j) _ o (λ _ _. refl)
      (λ ne e. ground (arith, ne, e)),
  set_order-totalled j q status average now os,
)

set_order-other :
    (i j p q : ℕ) (status : OrderStatus) (average : Option ℕ) (now : ℕ) (os : List OrderRow)
    → (i == j) ≡ false
    → All (λ o. o.id ≡ j → o.filled_quantity ≡ p) os
    → All (λ o. o.id ≡ j → o.filled_quantity ≡ p) (set_order i status q average now os)
unfolding set_order
set_order-other i j p q status average now [] ne h = tt
set_order-other i j p q status average now (o ∷ os) ne h = (
  if-holds (λ o'. o'.id ≡ j → o'.filled_quantity ≡ p) (o.id == i) _ o
      (λ hit e. ground (arith, hit, ne, e)) (λ _. h.0),
  set_order-other i j p q status average now os ne h.1,
)

module _ (divide : ℕ → ℕ → ℕ) where
  -- A new fill of a known order: `apply_fill` leaves the order with the sum of the quantities of
  -- its recorded fills, whatever it held, and that sum has grown by the quantity of the fill. The
  -- sum of any other order is the same, and an order that held it still does.
  pub apply_fill-IsTotalled :
      (now : ℕ) (a : Apply) (db : Database)
      → is_recorded a.order_id a.fill.broker_fill_id db.fills ≡ false
      → has_order a.order_id db.orders ≡ true
      → let after = (apply_fill divide now a db).1 in
        IsTotalled a.order_id after
        × filled_quantity a.order_id after.fills
          ≡ filled_quantity a.order_id db.fills + a.fill.quantity
        × ((j : ℕ)
            → (a.order_id == j) ≡ false
            → filled_quantity j after.fills ≡ filled_quantity j db.fills
              × (IsTotalled j db → IsTotalled j after))
  unfolding apply_fill apply_new upsert_position touch_strategy_state record_fill_quote insert_fill
      IsTotalled
  apply_fill-IsTotalled now a db fresh known =
      rw (fresh, known)
        (
          set_order-totalled a.order_id _ _ _ _ db.orders,
          ground (
            arith,
            filled_quantity-append a.order_id db.fills
                (record { order_id = a.order_id; runtime_id = a.runtime_id; fill = a.fill }),
          ),
          λ j ne.
              let same : filled_quantity j (db.fills ++ _) ≡ filled_quantity j db.fills = ground (
                arith,
                ne,
                filled_quantity-append j db.fills
                    (record { order_id = a.order_id; runtime_id = a.runtime_id; fill = a.fill }),
              ) in
              (same, λ h. rw same (set_order-other a.order_id j _ _ _ _ _ db.orders ne h)),
        )
