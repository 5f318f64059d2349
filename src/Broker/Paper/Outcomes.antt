-- ===== src/Broker/Paper/Outcomes.antt =====
-- What a submission changes, on each of its branches.
use algo_trading.Common.{
  ℕ, ◌≡◌, ◌⊎◌, ◌<◌, refl, Bool, true, false, Option, none, some, arith, if◌then◌else◌, if-holds,
  ◌==◌, List, is_some, inl, inr,
}
use algo_trading.Common.Dict.{Dict, lookup, insert}
use algo_trading.Models.{is_limit, Fill, Result, ok, err}
use algo_trading.Store.Rows.{OrderIntent}
use algo_trading.Store.Intents.{Order}
use algo_trading.Broker.{Quote, Submission, accepted, refused, failed}
use algo_trading.Broker.Rules.{
  invalid_tick_price, duplicate_correlation_id, text_of, PaperFillConfig, InstrumentRules,
}
use algo_trading.Broker.Pricing.{Priced, priced, unpriced, uncounted, tick_for, market_price}
use algo_trading.Broker.Checks.{
  Check, ◌then_check◌, refuse_if, off_grid, check_quantity, check_limit_price, check_intent,
  check_rules, rules_for,
}
use algo_trading.Broker.Fills.{Setup, Leg, make_fills}
use algo_trading.Broker.Paper.{
  PaperBroker, WorkingOrder, market_leg, working_of, count_refusal, count_latency, ordered,
  order_of, kept_order, fill_priced, fill_now, rest, placed, checked, ruled, admitted, submit,
  select_quote,
}

-- An order at rest has its identifier's key and a limit price above zero.
pub record IsResting (id : ℕ) (w : WorkingOrder) : Type 0 where
  pub key : w.intent.correlation_id ≡ id
  pub limit : ℕ
  pub limited : w.intent.limit_price ≡ some limit
  pub positive : 0 < limit

then_check_none : (c d : Check) → (c then_check d) ≡ none → (c ≡ none) × (d ≡ none)
then_check_none none d h = (refl, h)
then_check_none (some code) d h = absurd (ground (arith, h))

positive_limit :
    (o tick : Option ℕ)
    → elim o [
      | none ↦ some invalid_tick_price
      | some price ↦ refuse_if (price == 0) invalid_tick_price then_check off_grid tick price
    ]
      ≡ none
    → (limit : ℕ) × (o ≡ some limit) × (0 < limit)
positive_limit none tick h = absurd (ground (arith, h))
positive_limit (some limit) tick h =
    let tested =
      (then_check_none (refuse_if (limit == 0) invalid_tick_price) (off_grid tick limit) h).0 in
    (limit, refl, ground (arith, tested))

taken : (b : Bool) (c : Check) → b ≡ true → (if b then c else none) ≡ none → c ≡ none
taken true c e h = h
taken false c e h = absurd (ground (arith, e))

limit_checked :
    (i : OrderIntent) (tick : Option ℕ)
    → check_limit_price i tick ≡ none
    → is_limit i.order_type ≡ true
    → (limit : ℕ) × (i.limit_price ≡ some limit) × (0 < limit)
unfolding check_limit_price
limit_checked i tick h at_limit =
    positive_limit i.limit_price tick (taken (is_limit i.order_type) _ at_limit h)

checked_limit :
    (c : PaperFillConfig) (open_at : Option (ℕ → Bool)) (now : ℕ) (i : OrderIntent) (q : Quote)
    (rules : InstrumentRules)
    → check_rules c open_at now i q rules ≡ none
    → is_limit i.order_type ≡ true
    → (limit : ℕ) × (i.limit_price ≡ some limit) × (0 < limit)
unfolding check_rules
checked_limit c open_at now i q rules h at_limit =
    let later = (then_check_none (check_quantity i rules) _ h).1 in
    let price = (then_check_none (check_limit_price i (tick_for c rules)) _ later).0 in
    limit_checked i (tick_for c rules) price at_limit

-- What comes to rest under an identifier: nothing, or an order of its own with a limit price.
unfoldable pub RestsAtMost : Dict WorkingOrder → ℕ → Dict WorkingOrder → Type 0
RestsAtMost working id after =
    (after ≡ working) ⊎ ((w : WorkingOrder) × IsResting id w × (after ≡ insert id w working))

-- An accepted order is kept under its identifier, and nothing else is; it may come to rest. A refusal changes neither
-- the orders, the ones at rest nor the number of the next fill; another error changes no order.
unfoldable pub Leaves : Dict Order → Dict WorkingOrder → ℕ → ℕ → Submission × PaperBroker → Type 0
unfolding RestsAtMost
Leaves orders working next id (accepted o, p) =
    (o.correlation_id ≡ id) × (p.orders ≡ insert id o orders) × RestsAtMost working id p.working
Leaves orders working next id (refused text, p) =
    (p.orders ≡ orders) × (p.working ≡ working) × (p.fill_sequence ≡ next)
Leaves orders working next id (failed e, p) = (p.orders ≡ orders) × (p.working ≡ working)

abbrev pub IsOutcome : PaperBroker → ℕ → Submission × PaperBroker → Type 0
IsOutcome p = Leaves p.orders p.working p.fill_sequence

module _ (divide : ℕ → ℕ → ℕ) (s : Setup) where
  kept_order-IsOutcome :
      (l : Leg) (p : PaperBroker) (r : Result (List Fill) × ℕ)
      → IsOutcome p l.intent.correlation_id (kept_order divide s (ordered divide s l p r))
  unfolding Leaves kept_order ordered
  kept_order-IsOutcome l p (err e, n) = (refl, refl)
  kept_order-IsOutcome l p (ok fs, n) = (refl, refl, inl refl)

  fill_priced-IsOutcome :
      (now : ℕ) (i : OrderIntent) (q selected : Quote) (applied : Bool) (p : PaperBroker)
      (r : Priced)
      → IsOutcome p i.correlation_id (fill_priced divide s now i q selected applied p r)
  unfolding Leaves fill_priced order_of
  fill_priced-IsOutcome now i q selected applied p (unpriced code) = (refl, refl, refl)
  fill_priced-IsOutcome now i q selected applied p (uncounted code) = (refl, refl, refl)
  fill_priced-IsOutcome now i q selected applied p (priced price method) =
      let l = market_leg divide s now i q selected applied price method in
      kept_order-IsOutcome l p (make_fills divide s l p.fill_sequence)

  placed-IsOutcome :
      (now : ℕ) (i : OrderIntent) (q : Quote) (rules : InstrumentRules) (p : PaperBroker)
      → check_rules s.config s.is_market_open now i q rules ≡ none
      → IsOutcome p i.correlation_id (placed divide s now i q rules p)
  unfolding placed
  placed-IsOutcome now i q rules p passed =
      if-holds (IsOutcome p i.correlation_id) (is_limit i.order_type) (rest divide s now i q p)
        (fill_now divide s now i q rules p)
        (λ at_limit.
          let (limit, limited, positive) =
            checked_limit s.config s.is_market_open now i q rules passed at_limit in
          let w = working_of divide s i q in
          let resting : IsResting i.correlation_id w = record {
            key = refl;
            limit = limit;
            limited = limited;
            positive = positive;
          } in
          unfold rest Leaves in (refl, refl, inr (w, resting, refl)))
        (λ _.
          unfold fill_now count_latency in
          let (selected, applied) = select_quote s.config p.quotes q in
          fill_priced-IsOutcome now i q selected applied (count_latency divide s applied p)
            (market_price divide s.config i.side selected rules))

  checked-IsOutcome :
      (now : ℕ) (i : OrderIntent) (q : Quote) (rules : InstrumentRules) (p : PaperBroker)
      (c : Check)
      → check_rules s.config s.is_market_open now i q rules ≡ c
      → IsOutcome p i.correlation_id (checked divide s now i q rules p c)
  unfolding checked Leaves
  checked-IsOutcome now i q rules p (some code) passed = (refl, refl, refl)
  checked-IsOutcome now i q rules p none passed = placed-IsOutcome now i q rules p passed

  ruled-IsOutcome :
      (now : ℕ) (i : OrderIntent) (q : Quote) (p : PaperBroker) (r : Option InstrumentRules)
      → IsOutcome p i.correlation_id (ruled divide s now i q p r)
  unfolding ruled Leaves
  ruled-IsOutcome now i q p none = (refl, refl, refl)
  ruled-IsOutcome now i q p (some rules) =
      checked-IsOutcome now i q rules p (check_rules s.config s.is_market_open now i q rules) refl

  admitted-IsOutcome :
      (now : ℕ) (i : OrderIntent) (q : Quote) (p : PaperBroker) (c : Check)
      → IsOutcome p i.correlation_id (admitted divide s now i q p c)
  unfolding admitted Leaves
  admitted-IsOutcome now i q p (some code) = (refl, refl, refl)
  admitted-IsOutcome now i q p none =
      ruled-IsOutcome now i q p (rules_for s.instrument_rules i.security_id)

  -- Every submission is accepted, refused or fails. An accepted order bears the identifier of the
  -- intent and is all that the orders gain; it may come to rest, with a limit price above zero. A refusal leaves the orders, the orders at rest and the
  -- number of the next fill as they are, any other failure the orders and the orders at rest.
  pub submit-IsOutcome :
      (now : ℕ) (i : OrderIntent) (q : Quote) (p : PaperBroker)
      → IsOutcome p i.correlation_id (submit divide s now i q p)
  unfolding submit
  submit-IsOutcome now i q p = admitted-IsOutcome now i q p (check_intent s.config p.orders i q)

  -- A submission under the identifier of a known order.
  pub known_refused :
      (now : ℕ) (i : OrderIntent) (q : Quote) (p : PaperBroker)
      → is_some (lookup i.correlation_id p.orders) ≡ true
      → submit divide s now i q p
        ≡ (refused (text_of duplicate_correlation_id), count_refusal duplicate_correlation_id p)
  unfolding submit admitted check_intent
  known_refused now i q p known = rw known refl
