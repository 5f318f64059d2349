-- ===== src/Broker/Fills/Amounts.antt =====
-- The amounts and the numbers of an order's fills.
use algo_trading.Common.{
  ℕ, ◌+◌, ◌*◌, ◌≤◌, ◌<◌, ◌≡◌, refl, ap, ◌||◌, false, Option, none, some, List, [], ◌∷◌, length, All,
  arith, ltb, ◌==◌, if-holds,
}
use algo_trading.Common.Int.{ℤ, pos, negsuc}
use mathlib.Core.Path.{subst}
use algo_trading.Store.Rows.{OrderIntent}
use algo_trading.Broker.{Quote}
use algo_trading.Models.{Fill, Result, ok, err, value_error}
use algo_trading.Broker.Costs.{charges_of, for_leg}
use algo_trading.Broker.Fills.{
  Setup, Leg, filled_quantity_of, turnover_of, sum_of, positives, positive_with, bounded,
  fill_quantities, fill_of, followed, fills_from, numbered, make_fills,
}

pub IfSome {ℓ κ} : {A : Type ℓ} → (A → Type κ) → Option A → Type κ
IfSome P none = Unit
IfSome P (some a) = P a

pub IfFine {ℓ κ} : {A : Type ℓ} → (A → Type κ) → Result A → Type κ
IfFine P (err e) = Unit
IfFine P (ok a) = P a

pub Numbered : ℕ → List Fill → Type 0
Numbered n [] = Unit
Numbered n (f ∷ fs) = (f.broker_fill_id ≡ n) × Numbered (n + 1) fs

-- A fill of a leg.
pub record IsFillOf (l : Leg) (f : Fill) : Type 0 where
  pub order : f.correlation_id ≡ l.intent.correlation_id
  pub price : f.price ≡ l.price
  pub amount : 0 < f.quantity

-- The fills of a leg, of these units in all, numbered from n on.
pub record AreFillsOf (l : Leg) (units n : ℕ) (fs : List Fill) : Type 0 where
  pub each : All (IsFillOf l) fs
  pub numbers : Numbered n fs
  pub all_units : filled_quantity_of fs ≡ units

positive_with-All :
    (n : ℕ) (o : Option (List ℕ))
    → IfSome (All (λ q. 0 < q)) o
    → IfSome (All (λ q. 0 < q)) (positive_with n o)
unfolding positive_with IfSome
positive_with-All n none h = tt
positive_with-All n (some ns) h =
    if-holds (IfSome (All (λ q. 0 < q))) (n == 0) none (some (n ∷ ns)) (λ _. tt)
      (λ positive. (ground (arith, positive), h))

positives-All : (zs : List ℤ) → IfSome (All (λ q. 0 < q)) (positives zs)
unfolding positives IfSome
positives-All [] = tt
positives-All (pos n ∷ zs) = positive_with-All n (positives zs) (positives-All zs)
positives-All (negsuc n ∷ zs) = tt

-- Quantities that an order may be split into.
pub record AreSplitOf (most : ℕ) (quantities : List ℕ) : Type 0 where
  pub positive : All (λ q. 0 < q) quantities
  pub some_units : 0 < sum_of quantities
  pub within : sum_of quantities ≤ most

bounded-AreSplitOf :
    (most : ℕ) (o : Option (List ℕ))
    → IfSome (All (λ q. 0 < q)) o
    → IfFine (AreSplitOf most) (bounded most o)
unfolding bounded IfSome IfFine
bounded-AreSplitOf most none h = tt
bounded-AreSplitOf most (some []) h = tt
bounded-AreSplitOf most (some (n ∷ ns)) h =
    if-holds (IfFine (AreSplitOf most)) (ltb most (sum_of (n ∷ ns))) (err value_error) (ok (n ∷ ns))
      (λ _. tt)
      (λ fits. record {
        positive = h;
        some_units = unfold sum_of in omega (arith, h.0);
        within = ground (arith, fits);
      })

module _ (divide : ℕ → ℕ → ℕ) (s : Setup) where
  pub fill_quantities-AreSplitOf :
      (i : OrderIntent) (q : Quote) (quantities : List ℕ)
      → fill_quantities divide s i q ≡ ok quantities
      → AreSplitOf i.quantity quantities
  unfolding fill_quantities IfFine
  fill_quantities-AreSplitOf i q quantities h =
      let policy = s.fill_quantity_policy i q in
      subst (IfFine (AreSplitOf i.quantity)) h
        (bounded-AreSplitOf i.quantity (positives policy) (positives-All policy))

  -- What the fills of these quantities are.
  pub Filling : Leg → ℕ → List ℕ → Type 0
  Filling l n quantities =
      (fs : List Fill) × (fills_from divide s l n quantities ≡ (ok fs, n + length quantities))
      × AreFillsOf l (sum_of quantities) n fs

  priced_for_leg :
      (l : Leg) (quantity : ℕ)
      → 0 < l.price
      → 0 < quantity
      → for_leg divide s.rates l.intent.side l.price quantity
        ≡ ok (charges_of divide s.rates l.intent.side l.price quantity)
  unfolding for_leg
  priced_for_leg l quantity priced h =
      let tested : (l.price == 0 || quantity == 0) ≡ false = ground arith in rw tested refl

  fills_from_next :
      (l : Leg) (n quantity : ℕ) (quantities : List ℕ)
      → 0 < l.price
      → 0 < quantity
      → Filling l (n + 1) quantities
      → Filling l n (quantity ∷ quantities)
  unfolding Filling fills_from followed sum_of
  fills_from_next l n quantity quantities priced h (fs, made, fine) =
      let c = charges_of divide s.rates l.intent.side l.price quantity in
      let longer : List Fill = fill_of divide s l n quantity c ∷ fs in
      (
        longer,
        rw (priced_for_leg l quantity priced h, made) (ap (λ m. (ok longer, m)) (omega arith)),
        unfold fill_of Numbered filled_quantity_of in
            record {
              each = (record { order = refl; price = refl; amount = h }, fine.each);
              numbers = (refl, fine.numbers);
              all_units = ap (λ u. quantity + u) fine.all_units;
            },
      )

  -- For a positive price and positive quantities there is a fill for each, at the price.
  pub fills_from-Filling :
      (l : Leg) (n : ℕ) (quantities : List ℕ)
      → 0 < l.price
      → All (λ q. 0 < q) quantities
      → Filling l n quantities
  unfolding Filling
  fills_from-Filling l n [] priced hs = (
    [],
    unfold fills_from in ap (λ m. (ok _, m)) (omega arith),
    unfold sum_of filled_quantity_of Numbered in
        record { each = tt; numbers = tt; all_units = refl },
  )
  fills_from-Filling l n (quantity ∷ quantities) priced hs =
      fills_from_next l n quantity quantities priced hs.0
        (fills_from-Filling l (n + 1) quantities priced hs.1)

  pub turnover_of-filled_quantity_of :
      (l : Leg) (fs : List Fill)
      → All (IsFillOf l) fs
      → turnover_of fs ≡ l.price * filled_quantity_of fs
  unfolding turnover_of filled_quantity_of
  turnover_of-filled_quantity_of l [] h = omega arith
  turnover_of-filled_quantity_of l (f ∷ fs) h =
      omega (arith, ap (λ x. x * f.quantity) h.0.price, turnover_of-filled_quantity_of l fs h.1)

  -- A leg of positive price that may be split has a fill for each quantity.
  pub make_fills-AreFillsOf :
      (l : Leg) (n : ℕ) (quantities : List ℕ)
      → 0 < l.price
      → fill_quantities divide s l.intent l.quote ≡ ok quantities
      → (fs : List Fill) × (make_fills divide s l n ≡ (ok fs, n + length quantities))
        × AreFillsOf l (sum_of quantities) n fs
  unfolding make_fills numbered Filling
  make_fills-AreFillsOf l n quantities priced split =
      let fine = fill_quantities-AreSplitOf l.intent l.quote quantities split in
      rw split (fills_from-Filling l n quantities priced fine.positive)
