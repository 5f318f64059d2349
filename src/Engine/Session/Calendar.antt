-- ===== src/Engine/Session/Calendar.antt =====
-- The dates that a session's walk over its calendar comes to.
use algo_trading.Common.{
  ℕ, zero, suc, ◌+◌, ◌-◌, ◌*◌, ◌/◌, ◌≤◌, ◌<◌, ◌≡◌, refl, sym, ap, ◌∙◌, true, false, ◌&&◌, arith,
  leb, ltb, ◌==◌, if◌then◌else◌, if-holds,
}
use mathlib.Core.Path.{subst}
use algo_trading.Models.{ok}
use algo_trading.Candles.Interval.{day}
use algo_trading.Engine.Session.{
  MarketSession, new_session, is_trading_date, is_trading_day, local_date, local_time, is_open,
  can_enter, walk_back, prior_trading_day,
}

-- The number of trading dates among so many dates before a date.
unfoldable pub sessions_in : MarketSession → ℕ → ℕ → ℕ
unfolding is_trading_date
sessions_in s d zero = 0
sessions_in s d (suc k) = (if is_trading_date s (d - 1) then 1 else 0) + sessions_in s (d - 1) k

-- The walk comes to a trading date with so many sessions from it, itself included, to the date where
-- it began.
abbrev pub Reached : MarketSession → ℕ → ℕ → ℕ → Type 0
Reached s d remaining e =
    (e < d) × (is_trading_date s e ≡ true) × (sessions_in s d (d - e) ≡ remaining)

-- The zone takes a date's local midnight to that date.
abbrev pub IsCalendar : MarketSession → Type 0
IsCalendar s = (d : ℕ) → s.zone (s.midnight d) / day ≡ d

midnight_date :
    (s : MarketSession) (d : ℕ)
    → IsCalendar s
    → is_trading_day s (s.midnight d) ≡ is_trading_date s d
unfolding is_trading_day local_date
midnight_date s d h = ap (λ e. is_trading_date s e) (h d)

sessions_step :
    (s : MarketSession) (d e : ℕ)
    → e < d
    → sessions_in s d (d - e)
      ≡ (if is_trading_date s (d - 1) then 1 else 0) + sessions_in s (d - 1) (d - 1 - e)
sessions_step s d e h =
    let same : d - e ≡ suc (d - 1 - e) = omega arith in
    ap (λ k. sessions_in s d k) same ∙ (unfold sessions_in in refl)

-- One date is stepped over.
step_over :
    (s : MarketSession) (d before remaining e : ℕ)
    → Reached s (d - 1) before e
    → (if is_trading_date s (d - 1) then 1 else 0) + before ≡ remaining
    → Reached s d remaining e
step_over s d before remaining e (less, trading, counted) total = (
  omega arith,
  trading,
  sessions_step s d e (omega arith)
      ∙ ap (λ k. (if is_trading_date s (d - 1) then 1 else 0) + k) counted
      ∙ total,
)

-- The date before is the one.
step_on :
    (s : MarketSession) (d remaining : ℕ)
    → 1 ≤ d
    → is_trading_date s (d - 1) ≡ true
    → remaining ≡ 1
    → Reached s d remaining (d - 1)
step_on s d remaining h trading one =
    let none_left : d - 1 - (d - 1) ≡ 0 = omega arith in
    let empty : sessions_in s (d - 1) (d - 1 - (d - 1)) ≡ 0 =
      ap (λ k. sessions_in s (d - 1) k) none_left ∙ (unfold sessions_in in refl) in
    (
      omega arith,
      trading,
      sessions_step s d (d - 1) (omega arith)
          ∙ ap (λ b. (if b then 1 else 0) + sessions_in s (d - 1) (d - 1 - (d - 1))) trading
          ∙ ap (λ k. 1 + k) empty
          ∙ sym one,
    )

walk_back-Reached :
    (s : MarketSession) (hops d remaining : ℕ)
    → IsCalendar s
    → hops ≤ d
    → 1 ≤ remaining
    → remaining ≤ sessions_in s d hops
    → Reached s d remaining (walk_back s hops d remaining)
unfolding walk_back sessions_in
walk_back-Reached s zero d remaining cal h p q = absurd (omega arith)
walk_back-Reached s (suc hops) d remaining cal h p q =
    let is_day = midnight_date s (d - 1) cal in
    let further = walk_back-Reached s hops (d - 1) in
    if-holds (Reached s d remaining) (is_trading_day s (s.midnight (d - 1))) _ _
      (λ on.
        let trading : is_trading_date s (d - 1) ≡ true = sym is_day ∙ on in
        let left : remaining ≤ 1 + sessions_in s (d - 1) hops =
          subst (λ b. remaining ≤ (if b then 1 else 0) + sessions_in s (d - 1) hops) trading q in
        if-holds (Reached s d remaining) (remaining - 1 == 0) _ _
          (λ last. step_on s d remaining (omega arith) trading (ground (arith, last, p)))
          (λ more.
            let least : 1 ≤ remaining - 1 = ground (arith, more, p) in
            let total : 1 + (remaining - 1) ≡ remaining = omega arith in
            step_over s d (remaining - 1) remaining _
              (further (remaining - 1) cal (omega arith) least (omega arith))
              (ap (λ b. (if b then 1 else 0) + (remaining - 1)) trading ∙ total)))
      (λ off.
        let closed : is_trading_date s (d - 1) ≡ false = sym is_day ∙ off in
        let left : remaining ≤ 0 + sessions_in s (d - 1) hops =
          subst (λ b. remaining ≤ (if b then 1 else 0) + sessions_in s (d - 1) hops) closed q in
        let total : 0 + remaining ≡ remaining = omega arith in
        step_over s d remaining remaining _ (further remaining cal (omega arith) p (omega arith))
          (ap (λ b. (if b then 1 else 0) + remaining) closed ∙ total))

-- Where a number of sessions above zero is not more than there are in the dates that the walk looks
-- at, and these do not go back before 1970, the date so many sessions back is an earlier trading date,
-- and from it, itself included, to the date where the walk began there are exactly so many.
pub prior_trading_day-Reached :
    (s : MarketSession) (d sessions_back : ℕ)
    → IsCalendar s
    → sessions_back * 5 + 14 ≤ d
    → 1 ≤ sessions_back
    → sessions_back ≤ sessions_in s d (sessions_back * 5 + 14)
    → Reached s d sessions_back (prior_trading_day s d sessions_back)
unfolding prior_trading_day
prior_trading_day-Reached s d sessions_back cal h p q =
    let some_back : leb 1 sessions_back ≡ true = ground (arith, p) in
    rw some_back (walk_back-Reached s (sessions_back * 5 + 14) d sessions_back cal h p q)

-- In a session that was accepted, a position may be opened at a moment exactly if the moment lies in
-- the active window and its local time is before the end of the entries.
pub can_enter-is_open :
    (s session : MarketSession) (moment : ℕ)
    → new_session s ≡ ok session
    → can_enter s moment ≡ (is_open s moment && ltb (local_time s moment) s.finish)
unfolding can_enter is_open new_session
can_enter-is_open s session moment made = ground (arith, made)
