-- ===== src/Broker/Paper.antt =====
-- class PaperBroker of common/broker/paper.py: its state, and a submission. A call reads the clock
-- once.
pub mod Accepting
pub mod Outcomes
use algo_trading.Common.{
  ℕ, ◌+◌, ◌*◌, Bool, true, false, Option, none, some, List, [], ◌==◌, or_else, if◌then◌else◌,
}
use algo_trading.Common.Dict.{Dict, lookup, insert}
use algo_trading.Models.{Fill, is_limit, submitted, Error, Result, ok, err}
use algo_trading.Store.Rows.{OrderIntent}
use algo_trading.Store.Intents.{Order}
use algo_trading.Broker.{Quote, Submission, accepted, refused, failed, Broker}
use algo_trading.Broker.Quotes.{QuoteBook, after_in}
use algo_trading.Broker.Rules.{
  PaperRejectionCode, invalid_instrument, text_of, InstrumentRules, PaperFillConfig,
}
use algo_trading.Broker.Pricing.{Priced, priced, unpriced, uncounted, market_price}
use algo_trading.Broker.Checks.{check_intent, check_rules, rules_for}
use algo_trading.Broker.Fills.{Setup, Leg, make_fills, build_order}

pub record WorkingOrder : Type 0 where
  pub intent : OrderIntent
  pub submitted_at : ℕ
  pub eligible_at : ℕ

-- `fill_sequence` is the number of the next fill; refusals are counted under the number of their
-- text.
pub record PaperBroker : Type 0 where
  pub orders : Dict Order
  pub working : Dict WorkingOrder
  pub fill_sequence : ℕ
  pub latency_not_applied : ℕ
  pub rejections : Dict ℕ
  pub quotes : Option QuoteBook

-- `_refuse`
unfoldable pub count_refusal : PaperRejectionCode → PaperBroker → PaperBroker
count_refusal code p = record p {
  rejections =
      insert (text_of code) (or_else (lookup (text_of code) p.rejections) 0 + 1) p.rejections;
}

unfoldable pub latency_of : ℕ → ℕ
latency_of ms = ms * 1000

-- `_select_quote`
chosen : Quote → Option Quote → Quote × Bool
chosen q none = (q, false)
chosen q (some later) = (later, true)

unfoldable pub select_quote : PaperFillConfig → Option QuoteBook → Quote → Quote × Bool
unfolding chosen after_in
select_quote c quotes q =
    if c.submission_latency_ms == 0
    then (q, false)
    else chosen q (after_in quotes q.security_id (q.quoted_at + latency_of c.submission_latency_ms))

module _ (divide : ℕ → ℕ → ℕ) (s : Setup) where
  -- The order of a leg, and the broker whose numbers it took.
  ordered : Leg → PaperBroker → Result (List Fill) × ℕ → Result Order × PaperBroker
  unfolding build_order
  ordered l p (err e, n) = (err e, record p { fill_sequence = n })
  ordered l p (ok fs, n) =
      (ok (build_order divide s l.intent l.filled_at fs), record p { fill_sequence = n })

  unfoldable pub order_of : Leg → PaperBroker → Result Order × PaperBroker
  unfolding ordered make_fills
  order_of l p = ordered l p (make_fills divide s l p.fill_sequence)

  kept_order : Result Order × PaperBroker → Submission × PaperBroker
  kept_order (err e, p) = (failed e, p)
  kept_order (ok o, p) = (accepted o, record p { orders = insert o.correlation_id o p.orders })

  unfoldable pub market_leg : ℕ → OrderIntent → Quote → Quote → Bool → ℕ → ℕ → Leg
  market_leg now i q selected applied price method = record {
    intent = i;
    quote = selected;
    price = price;
    method = method;
    latency_applied = applied;
    reference_price = q.last_price;
    filled_at = now;
  }

  unfoldable pub fill_priced :
      ℕ → OrderIntent → Quote → Quote → Bool → PaperBroker → Priced → Submission × PaperBroker
  unfolding kept_order count_refusal market_leg
  fill_priced now i q selected applied p (unpriced code) =
      (refused (text_of code), count_refusal code p)
  fill_priced now i q selected applied p (uncounted code) = (refused (text_of code), p)
  fill_priced now i q selected applied p (priced price method) =
      kept_order (order_of (market_leg now i q selected applied price method) p)

  count_latency : Bool → PaperBroker → PaperBroker
  count_latency applied p = record p {
    latency_not_applied = p.latency_not_applied + (if applied then 0 else 1);
  }

  -- `_fill_now`
  unfoldable pub fill_now :
      ℕ → OrderIntent → Quote → InstrumentRules → PaperBroker → Submission × PaperBroker
  unfolding fill_priced select_quote count_latency
  fill_now now i q rules p =
      let (selected, applied) = select_quote s.config p.quotes q in
      fill_priced now i q selected applied (count_latency applied p)
        (market_price divide s.config i.side selected rules)

  unfoldable pub resting_order : OrderIntent → ℕ → Order
  resting_order i now = record {
    correlation_id = i.correlation_id;
    strategy_id = i.strategy_id;
    execution_mode = i.execution_mode;
    status = submitted;
    updated_at = now;
    broker_order_id = some i.correlation_id;
    filled_quantity = 0;
    average_fill_price = none;
    rejection_reason = none;
    fills = [];
  }

  unfoldable pub working_of : OrderIntent → Quote → WorkingOrder
  unfolding latency_of
  working_of i q = record {
    intent = i;
    submitted_at = q.quoted_at;
    eligible_at = q.quoted_at + latency_of s.config.submission_latency_ms;
  }

  -- `_rest`
  unfoldable pub rest : ℕ → OrderIntent → Quote → PaperBroker → Submission × PaperBroker
  unfolding resting_order working_of
  rest now i q p =
      let order = resting_order i now in
      (
        accepted order,
        record p {
          working = insert i.correlation_id (working_of i q) p.working;
          orders = insert i.correlation_id order p.orders;
        },
      )

  placed : ℕ → OrderIntent → Quote → InstrumentRules → PaperBroker → Submission × PaperBroker
  unfolding fill_now rest
  placed now i q rules p =
      if is_limit i.order_type then rest now i q p else fill_now now i q rules p

  checked :
      ℕ
      → OrderIntent
      → Quote
      → InstrumentRules
      → PaperBroker
      → Option PaperRejectionCode
      → Submission × PaperBroker
  unfolding placed count_refusal
  checked now i q rules p none = placed now i q rules p
  checked now i q rules p (some code) = (refused (text_of code), count_refusal code p)

  ruled : ℕ → OrderIntent → Quote → PaperBroker → Option InstrumentRules → Submission × PaperBroker
  unfolding checked count_refusal
  ruled now i q p none = (refused (text_of invalid_instrument), count_refusal invalid_instrument p)
  ruled now i q p (some rules) =
      checked now i q rules p (check_rules s.config s.is_market_open now i q rules)

  pub admitted :
      ℕ → OrderIntent → Quote → PaperBroker → Option PaperRejectionCode → Submission × PaperBroker
  unfolding ruled count_refusal
  admitted now i q p (some code) = (refused (text_of code), count_refusal code p)
  admitted now i q p none = ruled now i q p (rules_for s.instrument_rules i.security_id)

  unfoldable pub submit : ℕ → OrderIntent → Quote → PaperBroker → Submission × PaperBroker
  unfolding admitted
  submit now i q p = admitted now i q p (check_intent s.config p.orders i q)

  -- The broker of one call of the clock.
  abbrev pub paper_broker : ℕ → Broker PaperBroker
  paper_broker now = record { submit = λ i q p. submit now i q p }
