-- ===== src/Risk/SquareOff.antt =====
-- class SquareOffPolicy of common/risk/squareoff.py. A moment is an instant in microseconds; the
-- zone database gives the local wall clock, with midnight at multiples of a day. An expiry that is
-- no ISO date never makes a position overdue, as no expiry does: `none` stands for both.
pub mod Decision
use algo_trading.Common.{
  ℕ, ◌+◌, ◌/◌, ◌%◌, ◌≤◌, ◌<◌, ◌≡◌, refl, ◌↔◌, ◌⊎◌, inl, inr, Bool, true, false, Option, none, some,
  arith, ltb, leb, if◌then◌else◌,
}
use algo_trading.Common.Int.{ℤ, pos, pos_part, ltb_ℤ}
use algo_trading.Models.{Result, ok, err, value_error}
use algo_trading.Candles.Interval.{day}

pub data SquareOffState : Type 0 where
  pending in_progress completed failed : SquareOffState

pub data Trigger : Type 0 where
  nothing block_new_entries square_off : Trigger

pub data ExpiryPolicy : Type 0 where
  force_square_off_before_expiry simulate_exchange_settlement : ExpiryPolicy

pub record Policy : Type 0 where
  pub entry_cutoff : ℕ
  pub square_off_at : ℕ
  pub zone : ℕ → ℕ
  pub expiry_policy : ExpiryPolicy
  pub square_off_before_expiry_days : ℤ

abbrev is_settlement : ExpiryPolicy → Bool
is_settlement force_square_off_before_expiry = false
is_settlement simulate_exchange_settlement = true

-- `__post_init__`
unfoldable pub new_policy : Policy → Result Policy
new_policy p =
    if ltb p.square_off_at p.entry_cutoff
    then err value_error
    else if is_settlement p.expiry_policy
    then err value_error
    else if ltb_ℤ p.square_off_before_expiry_days (pos 0)
    then err value_error
    else ok p

unfoldable pub local_time : Policy → ℕ → ℕ
local_time p moment = p.zone moment % day

-- The local date, as a number of days.
unfoldable pub local_date : Policy → ℕ → ℕ
local_date p moment = p.zone moment / day

unfoldable pub entries_allowed : Policy → ℕ → Bool
unfolding local_time
entries_allowed p moment = ltb (local_time p moment) p.entry_cutoff

-- `local_date > expiry_date - timedelta(days=...)`, with the days on the other side.
unfoldable pub holding_overdue : Policy → ℕ → Option ℕ → Bool
unfolding local_date
holding_overdue p moment none = false
holding_overdue p moment (some expiry_date) =
    ltb expiry_date (local_date p moment + pos_part p.square_off_before_expiry_days)

at_clock : Policy → ℕ → Bool → Trigger
unfolding local_time
at_clock p moment overdue =
    if overdue
    then square_off
    else if leb p.square_off_at (local_time p moment)
    then square_off
    else if leb p.entry_cutoff (local_time p moment)
    then block_new_entries
    else nothing

unfoldable pub trigger_at : Policy → ℕ → SquareOffState → Option ℕ → Trigger
unfolding at_clock holding_overdue
trigger_at p moment completed expiry = nothing
trigger_at p moment in_progress expiry = nothing
trigger_at p moment pending expiry = at_clock p moment (holding_overdue p moment expiry)
trigger_at p moment failed expiry = at_clock p moment (holding_overdue p moment expiry)

-- A square-off that has neither finished nor begun.
abbrev pub IsOutstanding : SquareOffState → Type 0
IsOutstanding pending = Unit
IsOutstanding failed = Unit
IsOutstanding _ = ⊥
