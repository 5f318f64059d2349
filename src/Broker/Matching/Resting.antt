-- ===== src/Broker/Matching/Resting.antt =====
-- A quote against all orders at rest.
use algo_trading.Common.{
  ℕ, ◌*◌, ◌<◌, ◌≡◌, ◌⊎◌, refl, sym, ap, ◌∙◌, true, Option, none, some, is_some, List, [], ◌∷◌, All,
  arith, ==-refl, ◌==◌, Option-cases, Bool-cases, inl, inr,
}
use algo_trading.Common.Dict.{Dict, lookup, insert, erase, lookup-insert, lookup-erase}
use algo_trading.Models.{Result, ok, err}
use algo_trading.Store.Intents.{Order}
use algo_trading.Broker.{Quote}
use algo_trading.Broker.Fills.{Setup}
use algo_trading.Broker.Paper.{WorkingOrder, PaperBroker}
use algo_trading.Broker.Matching.{
  match_one, matched, with_order, continued, match_all, on_quote, keys,
}
use algo_trading.Broker.Paper.Outcomes.{IsResting}
use algo_trading.Broker.Matching.Turns.{IsMatch, IsTurn, match_one-IsTurn}

-- Every order at rest has its identifier's key and a limit price above zero.
unfoldable pub AllResting : PaperBroker → Type 0
AllResting p = (id : ℕ) (w : WorkingOrder) → lookup id p.working ≡ some w → IsResting id w

-- What is at rest after calls was at rest before them, and no order is lost.
pub record Shrinks (p p1 : PaperBroker) : Type 0 where
  pub working : (k : ℕ) → (lookup k p1.working ≡ none) ⊎ (lookup k p1.working ≡ lookup k p.working)
  pub orders : (k : ℕ) → is_some (lookup k p.orders) ≡ true → is_some (lookup k p1.orders) ≡ true

keeps_all : (p p1 : PaperBroker) → p1.orders ≡ p.orders → p1.working ≡ p.working → Shrinks p p1
keeps_all p p1 orders working = record {
  working = λ k. inr (ap (lookup k) working);
  orders = λ k h. simp orders h;
}

same_or : {a b c : Option WorkingOrder} → (b ≡ none) ⊎ (b ≡ c) → a ≡ b → (a ≡ none) ⊎ (a ≡ c)
same_or (inl gone) e = inl (e ∙ gone)
same_or (inr same) e = inr (e ∙ same)

keeps_over : (p p1 p2 : PaperBroker) → Shrinks p p1 → Shrinks p1 p2 → Shrinks p p2
keeps_over p p1 p2 h g = record {
  working = λ k. elim (g.working k) [ inl gone ↦ inl gone | inr same ↦ same_or (h.working k) same ];
  orders = λ k had. g.orders k (h.orders k had);
}

pub AllResting-Shrinks : (p p1 : PaperBroker) → AllResting p → Shrinks p p1 → AllResting p1
unfolding AllResting
AllResting-Shrinks p p1 h g id w found = elim (g.working id) [
  | inl gone ↦ absurd (ground (arith, gone, found))
  | inr same ↦ h id w (sym same ∙ found)
]

pub inserted :
    (id k : ℕ) (o : Order) (d : Dict Order)
    → is_some (lookup k d) ≡ true
    → is_some (lookup k (insert id o d)) ≡ true
inserted id k o d h =
    rw lookup-insert
      (elim (Bool-cases (k == id)) [ inl hit ↦ rw hit refl | inr other ↦ rw other h ])

erased :
    (id k : ℕ) (d : Dict WorkingOrder)
    → (lookup k (erase id d) ≡ none) ⊎ (lookup k (erase id d) ≡ lookup k d)
erased id k d =
    rw lookup-erase (elim (Bool-cases (k == id)) [
      | inl hit ↦ rw hit (inl refl)
      | inr other ↦ rw other (inr refl)
    ])

-- A turn loses no order.
IsTurn-Shrinks :
    (P : Order → Type 0) (id : ℕ) (p : PaperBroker) (r : Result (Option Order) × PaperBroker)
    → IsTurn P id p r
    → Shrinks p r.1
unfolding IsTurn
IsTurn-Shrinks P id p (err e, p1) h = keeps_all p p1 h.0 h.1
IsTurn-Shrinks P id p (ok none, p1) h =
    keeps_all p p1 (ap (λ x. x.orders) h) (ap (λ x. x.working) h)
IsTurn-Shrinks P id p (ok (some o), p1) (fits, working, orders) = record {
  working = λ k. simp working (erased id k p.working);
  orders = λ k h. simp orders (inserted id k o p.orders h);
}

-- An order that the quote filled: it was at rest, and is not any more.
pub record IsFilledBy (divide : ℕ → ℕ → ℕ) (s : Setup) (now : ℕ) (q : Quote) (p p1 : PaperBroker)
    (o : Order) : Type 0 where
  pub id : ℕ
  pub waiting : WorkingOrder
  pub rested : lookup id p.working ≡ some waiting
  pub matches : IsMatch divide s now q waiting o
  pub gone : lookup id p1.working ≡ none

unfoldable pub IsPass :
    (ℕ → ℕ → ℕ) → Setup → ℕ → Quote → PaperBroker → Result (List Order) × PaperBroker → Type 0
IsPass divide s now q p (err e, p1) = Shrinks p p1
IsPass divide s now q p (ok os, p1) = Shrinks p p1 × All (IsFilledBy divide s now q p p1) os

module _ (divide : ℕ → ℕ → ℕ) (s : Setup) (exact : (a b : ℕ) → 0 < b → divide (a * b) b ≡ a) where
  -- The orders of a later part of the loop, seen from its start.
  earlier :
      (now : ℕ) (q : Quote) (p p1 p2 : PaperBroker) (os : List Order)
      → Shrinks p p1
      → All (IsFilledBy divide s now q p1 p2) os
      → All (IsFilledBy divide s now q p p2) os
  earlier now q p p1 p2 [] h hs = tt
  earlier now q p p1 p2 (o ∷ os) h (f, fs) = (
    record {
      id = f.id;
      waiting = f.waiting;
      rested = elim (h.working f.id) [
        | inl none_left ↦ absurd (ground (arith, none_left, f.rested))
        | inr same ↦ sym same ∙ f.rested
      ];
      matches = f.matches;
      gone = f.gone;
    },
    earlier now q p p1 p2 os h fs,
  )

  stays_gone :
      (k : ℕ) (p p1 : PaperBroker)
      → Shrinks p p1
      → lookup k p.working ≡ none
      → lookup k p1.working ≡ none
  stays_gone k p p1 h gone = elim (h.working k) [ inl g ↦ g | inr same ↦ same ∙ gone ]

  continued-IsPass :
      (now : ℕ) (q : Quote) (id : ℕ) (w : WorkingOrder) (p : PaperBroker)
      (turn : Result (Option Order) × PaperBroker) (rest : Result (List Order) × PaperBroker)
      → lookup id p.working ≡ some w
      → IsTurn (IsMatch divide s now q w) id p turn
      → IsPass divide s now q turn.1 rest
      → IsPass divide s now q p (continued divide s turn rest)
  unfolding IsPass continued with_order
  continued-IsPass now q id w p (err e, p1) rest found turn pass =
      IsTurn-Shrinks (IsMatch divide s now q w) id p (err e, p1) turn
  continued-IsPass now q id w p (ok o, p1) (err e, p2) found turn pass =
      keeps_over p p1 p2 (IsTurn-Shrinks (IsMatch divide s now q w) id p (ok o, p1) turn) pass
  continued-IsPass now q id w p (ok none, p1) (ok os, p2) found turn pass =
      let first = IsTurn-Shrinks (IsMatch divide s now q w) id p (ok none, p1) turn in
      (keeps_over p p1 p2 first pass.0, earlier now q p p1 p2 os first pass.1)
  continued-IsPass now q id w p (ok (some o), p1) (ok os, p2) found turn pass =
      let first = IsTurn-Shrinks (IsMatch divide s now q w) id p (ok (some o), p1) turn in
      (
        keeps_over p p1 p2 first pass.0,
        (
          unfold IsTurn in
              record {
                id = id;
                waiting = w;
                rested = found;
                matches = turn.0;
                gone =
                    stays_gone id p1 p2 pass.0
                      (ap (lookup id) turn.1 ∙ rw (lookup-erase, ==-refl id) refl);
              },
          earlier now q p p1 p2 os first pass.1,
        ),
      )

  match_all-IsPass :
      (now : ℕ) (q : Quote) (ids : List ℕ) (p : PaperBroker)
      → AllResting p
      → IsPass divide s now q p (match_all divide s now q ids p)
  unfolding match_all
  match_all-IsPass now q [] p h = unfold IsPass in (keeps_all p p refl refl, tt)
  match_all-IsPass now q (id ∷ ids) p h = elim (Option-cases (lookup id p.working)) [
    | inl missing ↦
        unfold match_one matched continued IsPass in rw missing (keeps_all p p refl refl)
    | inr (w, found) ↦
        let turn = match_one divide s now q id p in
        let made =
          match_one-IsTurn divide s exact now q id w p found (unfold AllResting in h id w found) in
        let first = IsTurn-Shrinks (IsMatch divide s now q w) id p turn made in
        continued-IsPass now q id w p turn (match_all divide s now q ids turn.1) found made
          (match_all-IsPass now q ids turn.1 (AllResting-Shrinks p turn.1 h first))
  ]

  -- Where every order at rest has a limit price above zero: each order that a quote fills was at
  -- rest and is not any more, is for the quote's instrument, and has waited; the quote's ask for a
  -- purchase and its bid for a sale, or the last price where that is missing and the settings allow
  -- it, is within its limit, and it is filled at the limit. Nothing comes to rest, and no order is
  -- lost.
  pub on_quote-IsPass :
      (now : ℕ) (q : Quote) (p : PaperBroker)
      → AllResting p
      → IsPass divide s now q p (on_quote divide s now q p)
  unfolding on_quote
  on_quote-IsPass now q p h = match_all-IsPass now q (keys divide s p.working) p h
