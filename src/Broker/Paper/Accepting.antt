-- ===== src/Broker/Paper/Accepting.antt =====
-- The order of a market submission that passes every check.
use algo_trading.Common.{
  ℕ, ◌+◌, ◌*◌, ◌≤◌, ◌<◌, ◌≡◌, refl, ap, none, some, List, length, arith, leb, ==-refl, ◌==◌,
  if◌then◌else◌,
}
use algo_trading.Common.Dict.{lookup, lookup-insert}
use algo_trading.Models.{is_limit, market, filled, partially_filled, Error, ok, err}
use algo_trading.Store.Rows.{OrderIntent}
use algo_trading.Store.Intents.{Order}
use algo_trading.Broker.{Quote, accepted}
use algo_trading.Broker.Rules.{InstrumentRules}
use algo_trading.Broker.Pricing.{priced, market_price}
use algo_trading.Broker.Checks.{check_intent, check_rules, rules_for}
use algo_trading.Broker.Fills.{
  Setup, Leg, fill_quantities, make_fills, build_order, filled_quantity_of,
}
use algo_trading.Broker.Fills.Amounts.{
  AreFillsOf, fill_quantities-AreSplitOf, make_fills-AreFillsOf, turnover_of-filled_quantity_of,
}
use algo_trading.Broker.Paper.{
  PaperBroker, market_leg, select_quote, order_of, ordered, kept_order, fill_priced, fill_now, rest,
  placed, checked, ruled, admitted, submit, count_latency,
}

-- An order of a leg: fills at the leg's price, numbered from n on, of some units and of no more than
-- were asked for, and filled if of all of them.
pub record IsFilledOrder (l : Leg) (n : ℕ) (o : Order) : Type 0 where
  pub correlation_id : o.correlation_id ≡ l.intent.correlation_id
  pub fills : AreFillsOf l o.filled_quantity n o.fills
  pub some_units : 0 < o.filled_quantity
  pub within : o.filled_quantity ≤ l.intent.quantity
  pub status :
      o.status ≡ (if o.filled_quantity == l.intent.quantity then filled else partially_filled)
  pub average : o.average_fill_price ≡ some l.price

same_status :
    (most units : ℕ)
    → units ≤ most
    → (if leb most units then filled else partially_filled)
      ≡ (if units == most then filled else partially_filled)
same_status most units h = ap (λ b. if b then filled else partially_filled) (ground arith)

module _ (divide : ℕ → ℕ → ℕ) (s : Setup) (exact : (a b : ℕ) → 0 < b → divide (a * b) b ≡ a) where
  -- For a positive price and an acceptable split, a leg has an order.
  pub order_of-IsFilledOrder :
      (l : Leg) (p : PaperBroker) (quantities : List ℕ)
      → 0 < l.price
      → fill_quantities divide s l.intent l.quote ≡ ok quantities
      → (o : Order) × (order_of divide s l p
          ≡ (ok o, record p { fill_sequence = p.fill_sequence + length quantities }))
        × IsFilledOrder l p.fill_sequence o
  unfolding order_of
  order_of-IsFilledOrder l p quantities positive split =
      let fine = fill_quantities-AreSplitOf divide s l.intent l.quote quantities split in
      let (fs, made, fills) =
        make_fills-AreFillsOf divide s l p.fill_sequence quantities positive split in
      let units = fills.all_units in
      (
        build_order divide s l.intent l.filled_at fs,
        unfold ordered in rw made refl,
        unfold build_order in
            record {
              correlation_id = refl;
              fills = record { each = fills.each; numbers = fills.numbers; all_units = refl };
              some_units = omega (arith, units, fine.some_units);
              within = omega (arith, units, fine.within);
              status =
                  same_status l.intent.quantity (filled_quantity_of fs)
                    (omega (arith, units, fine.within));
              average = ap some (
                  rw (turnover_of-filled_quantity_of divide s l fs fills.each) (
                    exact l.price (filled_quantity_of fs) (omega (arith, units, fine.some_units))));
            },
      )

  pub order_of_refused :
      (l : Leg) (p : PaperBroker) (e : Error)
      → fill_quantities divide s l.intent l.quote ≡ err e
      → order_of divide s l p ≡ (err e, p)
  unfolding order_of ordered make_fills
  order_of_refused l p e split = rw split refl

  -- A submission that every check lets pass.
  pub record Passes (now : ℕ) (i : OrderIntent) (q : Quote) (p : PaperBroker)
      (rules : InstrumentRules) : Type 0 where
    pub intent : check_intent s.config p.orders i q ≡ none
    pub known : rules_for s.instrument_rules i.security_id ≡ some rules
    pub order : check_rules s.config s.is_market_open now i q rules ≡ none

  submit_placed :
      (now : ℕ) (i : OrderIntent) (q : Quote) (p : PaperBroker) (rules : InstrumentRules)
      → Passes now i q p rules
      → submit divide s now i q p ≡ placed divide s now i q rules p
  unfolding submit admitted ruled checked
  submit_placed now i q p rules h = rw (h.intent, h.known, h.order) refl

  placed_market :
      (now : ℕ) (i : OrderIntent) (q : Quote) (rules : InstrumentRules) (p : PaperBroker)
      → i.order_type ≡ market
      → placed divide s now i q rules p ≡ fill_now divide s now i q rules p
  unfolding placed
  placed_market now i q rules p h =
      ap (λ t. if is_limit t then rest divide s now i q p else fill_now divide s now i q rules p) h

  kept_order-accepted :
      (l : Leg) (p : PaperBroker) (quantities : List ℕ)
      → 0 < l.price
      → fill_quantities divide s l.intent l.quote ≡ ok quantities
      → (o : Order) × let (answer, p1) = kept_order divide s (order_of divide s l p) in
          (answer ≡ accepted o)
          × (lookup l.intent.correlation_id p1.orders ≡ some o)
          × (p1.fill_sequence ≡ p.fill_sequence + length quantities)
          × IsFilledOrder l p.fill_sequence o
  unfolding kept_order
  kept_order-accepted l p quantities positive split =
      let (o, made, fine) = order_of-IsFilledOrder l p quantities positive split in
      let id = l.intent.correlation_id in
      (o, rw made (refl, rw (fine.correlation_id, lookup-insert, ==-refl id) refl, refl, fine))

  pub submit-IsFilledOrder :
      (now : ℕ) (i : OrderIntent) (q : Quote) (p : PaperBroker) (rules : InstrumentRules)
      (price method : ℕ) (quantities : List ℕ)
      → Passes now i q p rules
      → i.order_type ≡ market
      → let (selected, applied) = select_quote s.config p.quotes q in
        market_price divide s.config i.side selected rules ≡ priced price method
        → 0 < price
        → fill_quantities divide s i selected ≡ ok quantities
        → (o : Order) × let (answer, p1) = submit divide s now i q p in
            (answer ≡ accepted o)
            × (lookup i.correlation_id p1.orders ≡ some o)
            × (p1.fill_sequence ≡ p.fill_sequence + length quantities)
            × IsFilledOrder
                (market_leg divide s now i q selected applied price method)
                p.fill_sequence
                o
  submit-IsFilledOrder now i q p rules price method quantities passes at_market found positive
        split =
      let (selected, applied) = select_quote s.config p.quotes q in
      rw (submit_placed now i q p rules passes, placed_market now i q rules p at_market)
        (unfold fill_now in
          rw found (
            unfold fill_priced count_latency in
            kept_order-accepted (market_leg divide s now i q selected applied price method)
              (count_latency divide s applied p) quantities positive split))
