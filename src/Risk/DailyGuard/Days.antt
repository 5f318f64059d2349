-- ===== src/Risk/DailyGuard/Days.antt =====
-- A day under the guard: what it allows, when it halts, and that it stays halted.
use mathlib.Core.Path.{subst}
use algo_trading.Common.{
  ℕ, ◌+◌, ◌≡◌, refl, sym, ap, ◌∙◌, ◌↔◌, true, false, Option, none, some, List, [], ◌∷◌, arith,
  Bool-cases, inl, inr,
}
use algo_trading.Common.Int.{ℤ, pos, neg, ◌+ℤ◌, ◌<ℤ◌}
use algo_trading.Risk.DailyGuard.{
  Config, Guard, is_halted, evaluate, register_trade, check_open_mtm, reaches,
}

-- What the engine tells the guard within a day.
pub data Event : Type 0 where
  trade : ℤ → Event
  mark : ℤ → Event

unfoldable pub step : Event → Guard → Guard
step (trade net_pnl) g = (register_trade g net_pnl).1
step (mark open_pnl) g = (check_open_mtm g open_pnl).1

unfoldable pub run : List Event → Guard → Guard
run [] g = g
run (e ∷ es) g = run es (step e g)

-- The limits that the booked trades have not reached.
pub record Within (cfg : Config) (realised : ℤ) (count : ℕ) : Type 0 where
  pub loss : pos 0 <ℤ cfg.daily_max_loss → neg cfg.daily_max_loss <ℤ realised
  pub profit : (target : ℤ) → cfg.daily_profit_target ≡ some target → realised <ℤ target
  pub trades : pos 0 <ℤ cfg.max_trades → pos count <ℤ cfg.max_trades

evaluate-realised : (g : Guard) → (evaluate g).realised ≡ g.realised
unfolding evaluate
evaluate-realised g = ground arith

evaluate-count : (g : Guard) → (evaluate g).count ≡ g.count
unfolding evaluate
evaluate-count g = ground arith

unreached :
    (o : Option ℤ) (realised : ℤ)
    → reaches o realised ≡ false
    → (target : ℤ) → o ≡ some target
    → realised <ℤ target
unreached none realised h target e = absurd (ground (arith, e))
unreached (some t) realised h target e = ground (arith, h, e)

not_reached :
    (o : Option ℤ) (realised : ℤ)
    → ((target : ℤ) → o ≡ some target → realised <ℤ target)
    → reaches o realised ≡ false
not_reached none realised h = refl
not_reached (some t) realised h = let below = h t refl in ground (arith, below)

open_reaches :
    (g : Guard)
    → is_halted g ≡ false
    → is_halted (evaluate g) ≡ false
    → reaches g.cfg.daily_profit_target g.realised ≡ false
unfolding evaluate is_halted
open_reaches g h k = ground arith

evaluate-Within :
    (g : Guard)
    → is_halted g ≡ false
    → is_halted (evaluate g) ≡ false
    → Within g.cfg g.realised g.count
unfolding evaluate is_halted
evaluate-Within g h k = record {
  loss = ground arith;
  profit = unreached g.cfg.daily_profit_target g.realised (open_reaches g h k);
  trades = ground arith;
}

Within-evaluate :
    (g : Guard)
    → is_halted g ≡ false
    → Within g.cfg g.realised g.count
    → is_halted (evaluate g) ≡ false
unfolding evaluate is_halted
Within-evaluate g h w =
    let below = not_reached g.cfg.daily_profit_target g.realised w.profit in
    ground (arith, w.loss, below, w.trades)

-- The guard as `register_trade` hands it to `_evaluate`.
abbrev booked : Guard → ℤ → Guard
booked g net_pnl = record g { realised = g.realised +ℤ net_pnl; count = g.count + 1 }

register_trade-evaluate :
    (g : Guard) (net_pnl : ℤ)
    → is_halted g ≡ false
    → (register_trade g net_pnl).1 ≡ evaluate (booked g net_pnl)
register_trade-evaluate g net_pnl h = unfold register_trade in rw h

-- A trade is booked unless the day is halted, and the guard is halted after it exactly if a limit is
-- reached by what is then booked.
pub register_trade-Within :
    (g : Guard) (net_pnl : ℤ)
    → is_halted g ≡ false
    → let g' = (register_trade g net_pnl).1 in
      (g'.realised ≡ g.realised +ℤ net_pnl)
      × (g'.count ≡ g.count + 1)
      × ((is_halted g' ≡ false) ↔ Within g.cfg (g.realised +ℤ net_pnl) (g.count + 1))
unfolding is_halted
register_trade-Within g net_pnl h =
    let b = booked g net_pnl in
    rw (register_trade-evaluate g net_pnl h) (
      evaluate-realised b,
      evaluate-count b,
      (λ k. evaluate-Within b h k, λ w. Within-evaluate b h w),
    )

register_trade-halted : (g : Guard) (x : ℤ) → is_halted g ≡ true → (register_trade g x).1 ≡ g
unfolding register_trade
register_trade-halted g x h = rw h

check_open_mtm-halted : (g : Guard) (x : ℤ) → is_halted g ≡ true → (check_open_mtm g x).1 ≡ g
unfolding check_open_mtm
check_open_mtm-halted g x h = rw h

-- A halted guard is not changed by anything that happens in the day.
pub run-halted : (es : List Event) (g : Guard) → is_halted g ≡ true → run es g ≡ g
unfolding run step
run-halted [] g h = refl
run-halted (trade x ∷ es) g h = rw (register_trade-halted g x h) (run-halted es g h)
run-halted (mark x ∷ es) g h = rw (check_open_mtm-halted g x h) (run-halted es g h)

-- The day as the limits allow it: after each trade what is booked is within them, and with no mark of
-- the open position does the total come to the limit on the loss.
unfoldable pub IsAllowed : Config → ℤ → ℕ → List Event → Type 0
IsAllowed cfg realised count [] = Unit
IsAllowed cfg realised count (trade x ∷ es) =
    Within cfg (realised +ℤ x) (count + 1) × IsAllowed cfg (realised +ℤ x) (count + 1) es
IsAllowed cfg realised count (mark x ∷ es) =
    (pos 0 <ℤ cfg.daily_max_loss → neg cfg.daily_max_loss <ℤ realised +ℤ x)
    × IsAllowed cfg realised count es

evaluate-cfg : (g : Guard) → (evaluate g).cfg ≡ g.cfg
unfolding evaluate
evaluate-cfg g = ground arith

register_trade-cfg : (g : Guard) (x : ℤ) → is_halted g ≡ false → (register_trade g x).1.cfg ≡ g.cfg
register_trade-cfg g x h = rw (register_trade-evaluate g x h) (evaluate-cfg (booked g x))

check_open_mtm-cfg : (g : Guard) (x : ℤ) → (check_open_mtm g x).1.cfg ≡ g.cfg
unfolding check_open_mtm
check_open_mtm-cfg g x = ground arith

check_open_mtm-realised : (g : Guard) (x : ℤ) → (check_open_mtm g x).1.realised ≡ g.realised
unfolding check_open_mtm
check_open_mtm-realised g x = ground arith

check_open_mtm-count : (g : Guard) (x : ℤ) → (check_open_mtm g x).1.count ≡ g.count
unfolding check_open_mtm
check_open_mtm-count g x = ground arith

check_open_mtm_stays :
    (g : Guard) (x : ℤ)
    → is_halted g ≡ false
    → (is_halted (check_open_mtm g x).1 ≡ false)
      ↔ (pos 0 <ℤ g.cfg.daily_max_loss → neg g.cfg.daily_max_loss <ℤ g.realised +ℤ x)
unfolding check_open_mtm is_halted
check_open_mtm_stays g x h = (λ k lt. ground arith, λ w. ground (arith, w))

-- The rest of a day after its first event.
run-rest :
    (es : List Event) (g g1 : Guard) (realised : ℤ) (count : ℕ) (P : Type 0)
    → g1.cfg ≡ g.cfg
    → g1.realised ≡ realised
    → g1.count ≡ count
    → ((is_halted g1 ≡ false) ↔ P)
    → (is_halted g1 ≡ false
        → (is_halted (run es g1) ≡ false) ↔ IsAllowed g1.cfg g1.realised g1.count es)
    → (is_halted (run es g1) ≡ false) ↔ (P × IsAllowed g.cfg realised count es)
run-rest es g g1 realised count P same booked_total counted first rest =
    let known : IsAllowed g1.cfg g1.realised g1.count es ≡ IsAllowed g.cfg realised count es =
      rw (same, booked_total, counted) refl in
    (
      λ k. elim (Bool-cases (is_halted g1)) [
        | inl halted ↦
            let stays = run-halted es g1 halted in
            absurd (ground (arith, sym (ap is_halted stays) ∙ k, halted))
        | inr going ↦ (first.0 going, subst (λ T. T) known ((rest going).0 k))
      ],
      λ w. (rest (first.1 w.0)).1 (subst (λ T. T) (sym known) w.1),
    )

-- From a guard that is not halted, a day of trades and of marks of the open position ends with the
-- guard not halted exactly if after each trade what is booked until then is within every configured
-- limit, and no mark takes the total to the limit on the loss where one is set.
pub run-IsAllowed :
    (es : List Event) (g : Guard)
    → is_halted g ≡ false
    → (is_halted (run es g) ≡ false) ↔ IsAllowed g.cfg g.realised g.count es
unfolding run step IsAllowed
run-IsAllowed [] g h = (λ _. tt, λ _. h)
run-IsAllowed (trade x ∷ es) g h =
    let (realised, count, first) = register_trade-Within g x h in
    run-rest es g (register_trade g x).1 _ _ _ (register_trade-cfg g x h) realised count first
      (run-IsAllowed es (register_trade g x).1)
run-IsAllowed (mark x ∷ es) g h =
    run-rest es g (check_open_mtm g x).1 _ _ _ (check_open_mtm-cfg g x)
      (check_open_mtm-realised g x) (check_open_mtm-count g x) (check_open_mtm_stays g x h)
      (run-IsAllowed es (check_open_mtm g x).1)
