-- ===== src/Broker/Matching/Calls.antt =====
-- Sequences of submissions and quotes.
use mathlib.Core.Path.{subst}
use algo_trading.Common.{
  ℕ, ◌*◌, ◌<◌, ◌≡◌, refl, sym, ap, ◌∙◌, true, Option, some, is_some, List, [], ◌∷◌, arith, ==-refl,
  ◌==◌, Bool-cases, or_else, if◌then◌else◌, inl, inr,
}
use algo_trading.Common.Dict.{lookup, insert, lookup-insert}
use algo_trading.Models.{Result, ok, err}
use algo_trading.Store.Rows.{OrderIntent}
use algo_trading.Store.Intents.{Order}
use algo_trading.Broker.{Quote, Submission, accepted, refused, failed}
use algo_trading.Broker.Quotes.{QuoteBook}
use algo_trading.Broker.Rules.{duplicate_correlation_id, text_of}
use algo_trading.Broker.Fills.{Setup}
use algo_trading.Broker.Paper.{WorkingOrder, PaperBroker, count_refusal, submit}
use algo_trading.Broker.Paper.Outcomes.{
  IsResting, RestsAtMost, Leaves, IsOutcome, submit-IsOutcome, known_refused,
}
use algo_trading.Broker.Matching.{on_quote}
use algo_trading.Broker.Matching.Resting.{
  AllResting, Shrinks, IsPass, inserted, AllResting-Shrinks, on_quote-IsPass,
}

-- A call and the clock it reads; the quote book may have moved on before it.
pub data Call : Type 0 where
  submission : ℕ → Option QuoteBook → OrderIntent → Quote → Call
  quotation : ℕ → Quote → Call

-- Every identifier of an order keeps one.
pub Keeps : PaperBroker → PaperBroker → Type 0
Keeps p p1 = (k : ℕ) → is_some (lookup k p.orders) ≡ true → is_some (lookup k p1.orders) ≡ true

outcome-Keeps :
    (p : PaperBroker) (id : ℕ) (r : Submission × PaperBroker) → IsOutcome p id r → Keeps p r.1
unfolding Leaves Keeps
outcome-Keeps p id (accepted o, p1) h k had = simp (h.1) (inserted id k o p.orders had)
outcome-Keeps p id (refused text, p1) h k had = simp (h.0) had
outcome-Keeps p id (failed e, p1) h k had = simp (h.0) had

newly :
    (id k : ℕ) (v w : WorkingOrder) (p : PaperBroker)
    → AllResting p
    → IsResting id v
    → (if k == id then some v else lookup k p.working) ≡ some w
    → IsResting k w
unfolding AllResting
newly id k v w p h resting found = elim (Bool-cases (k == id)) [
  | inl hit ↦
      let same : id ≡ k = ground (arith, hit) in
      let value : some v ≡ some w = simp hit at found in
      subst (λ x. IsResting k x) (ap (λ o. or_else o v) value)
        (subst (λ x. IsResting x v) same resting)
  | inr other ↦ h k w (simp other at found)
]

rests-AllResting :
    (p p1 : PaperBroker) (id : ℕ)
    → AllResting p
    → RestsAtMost p.working id p1.working
    → AllResting p1
unfolding AllResting RestsAtMost
rests-AllResting p p1 id h (inl same) k w found = h k w (ap (lookup k) (sym same) ∙ found)
rests-AllResting p p1 id h (inr (v, resting, after)) k w found =
    let here : lookup k (insert id v p.working) ≡ some w = ap (lookup k) (sym after) ∙ found in
    newly id k v w p h resting (sym (lookup-insert k id v p.working) ∙ here)

outcome-AllResting :
    (p : PaperBroker) (id : ℕ) (r : Submission × PaperBroker)
    → AllResting p
    → IsOutcome p id r
    → AllResting r.1
unfolding Leaves RestsAtMost
outcome-AllResting p id (accepted o, p1) rests h = rests-AllResting p p1 id rests h.2
outcome-AllResting p id (refused text, p1) rests h =
    rests-AllResting p p1 id rests (unfold RestsAtMost in inl h.1)
outcome-AllResting p id (failed e, p1) rests h =
    rests-AllResting p p1 id rests (unfold RestsAtMost in inl h.1)

module _ (divide : ℕ → ℕ → ℕ) (s : Setup) (exact : (a b : ℕ) → 0 < b → divide (a * b) b ≡ a) where
  unfoldable pub step : Call → PaperBroker → PaperBroker
  step (submission now quotes i q) p = (submit divide s now i q (record p { quotes = quotes })).1
  step (quotation now q) p = (on_quote divide s now q p).1

  unfoldable pub run : List Call → PaperBroker → PaperBroker
  unfolding step
  run [] p = p
  run (c ∷ cs) p = run cs (step c p)

  pass-Shrinks :
      (now : ℕ) (q : Quote) (p : PaperBroker) (r : Result (List Order) × PaperBroker)
      → IsPass divide s now q p r
      → Shrinks p r.1
  unfolding IsPass
  pass-Shrinks now q p (err e, p1) h = h
  pass-Shrinks now q p (ok os, p1) h = h.0

  quote-Shrinks :
      (now : ℕ) (q : Quote) (p : PaperBroker)
      → AllResting p
      → Shrinks p (on_quote divide s now q p).1
  quote-Shrinks now q p h =
      pass-Shrinks now q p (on_quote divide s now q p) (on_quote-IsPass divide s exact now q p h)

  step-AllResting : (c : Call) (p : PaperBroker) → AllResting p → AllResting (step c p)
  unfolding step
  step-AllResting (submission now quotes i q) p h =
      let seen = record p { quotes = quotes } in
      outcome-AllResting seen i.correlation_id (submit divide s now i q seen)
        (unfold AllResting in h) (submit-IsOutcome divide s now i q seen)
  step-AllResting (quotation now q) p h =
      AllResting-Shrinks p (on_quote divide s now q p).1 h (quote-Shrinks now q p h)

  step-Keeps : (c : Call) (p : PaperBroker) → AllResting p → Keeps p (step c p)
  unfolding step Keeps
  step-Keeps (submission now quotes i q) p h =
      let seen = record p { quotes = quotes } in
      outcome-Keeps seen i.correlation_id (submit divide s now i q seen)
        (submit-IsOutcome divide s now i q seen)
  step-Keeps (quotation now q) p h = (quote-Shrinks now q p h).orders

  -- Whatever is submitted and quoted, every order at rest has its identifier's key and a limit price
  -- above zero, if this holds at first.
  pub run-AllResting : (cs : List Call) (p : PaperBroker) → AllResting p → AllResting (run cs p)
  unfolding run
  run-AllResting [] p h = h
  run-AllResting (c ∷ cs) p h = run-AllResting cs (step c p) (step-AllResting c p h)

  run-Keeps : (cs : List Call) (p : PaperBroker) → AllResting p → Keeps p (run cs p)
  unfolding run Keeps
  run-Keeps [] p h k had = had
  run-Keeps (c ∷ cs) p h k had =
      run-Keeps cs (step c p) (step-AllResting c p h) k (step-Keeps c p h k had)

  accepted_known :
      (p : PaperBroker) (id : ℕ) (r : Submission × PaperBroker) (o : Order)
      → IsOutcome p id r
      → r.0 ≡ accepted o
      → is_some (lookup id r.1.orders) ≡ true
  unfolding Leaves
  accepted_known p id (accepted o1, p1) o h e =
      simp (h.1, lookup-insert id id o1 p.orders, ==-refl id) refl
  accepted_known p id (refused text, p1) o h e = absurd (ground (arith, e))
  accepted_known p id (failed e1, p1) o h e = absurd (ground (arith, e))

  -- An intent whose submission was accepted: after any submissions and quotes, another submission
  -- of its identifier is refused as a duplicate, and only the count of such refusals changes.
  pub submit-submit_refused :
      (now : ℕ) (i : OrderIntent) (q : Quote) (p : PaperBroker) (o : Order) (cs : List Call)
      (later : ℕ) (j : OrderIntent) (r : Quote)
      → AllResting p
      → (submit divide s now i q p).0 ≡ accepted o
      → j.correlation_id ≡ i.correlation_id
      → let after = run cs (submit divide s now i q p).1 in
        submit divide s later j r after
        ≡ (refused (text_of duplicate_correlation_id), count_refusal duplicate_correlation_id after)
  unfolding Keeps
  submit-submit_refused now i q p o cs later j r h taken same =
      let made = submit divide s now i q p in
      let outcome = submit-IsOutcome divide s now i q p in
      let known = accepted_known p i.correlation_id made o outcome taken in
      let resting = outcome-AllResting p i.correlation_id made h outcome in
      let still = run-Keeps cs made.1 resting i.correlation_id known in
      known_refused divide s later j r (run cs made.1)
        (subst (λ k. is_some (lookup k (run cs made.1).orders) ≡ true) (sym same) still)
