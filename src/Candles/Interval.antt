-- ===== src/Candles/Interval.antt =====
-- floor_to_interval and SessionWindow of common/candles/aggregator.py. A moment counts
-- microseconds; the wall clock of a zone is such a count too, with midnight at multiples of a day.
use native.Mathlib.Nat.{mul-div_cancel}
use algo_trading.Common.{
  ℕ, ◌+◌, ◌-◌, ◌*◌, ◌/◌, ◌%◌, ◌≤◌, ◌<◌, ◌≡◌, refl, sym, ◌∙◌, Bool, ◌&&◌, arith, leb, ltb, ◌==◌,
  if◌then◌else◌,
}
use algo_trading.Models.{Result, ok, err, value_error}

abbrev pub second : ℕ
second = 1000000

abbrev pub day : ℕ
day = 86400000000

unfoldable pub midnight : ℕ → ℕ
midnight moment = moment - moment % day

unfoldable pub floored : ℕ → ℕ → ℕ
floored moment interval_seconds =
    let elapsed = (moment - midnight moment) / second in
    midnight moment + elapsed / interval_seconds * interval_seconds * second

unfoldable pub floor_to_interval : ℕ → ℕ → Result ℕ
floor_to_interval moment interval_seconds =
    if interval_seconds == 0 then err value_error else ok (floored moment interval_seconds)

-- The zone database is the parameter `zone`: the wall clock of an instant.
pub record SessionWindow : Type 0 where
  pub start : ℕ
  pub finish : ℕ
  pub zone : ℕ → ℕ

unfoldable pub contains : SessionWindow → ℕ → Bool
contains session moment =
    let local = session.zone moment % day in leb session.start local && ltb local session.finish

pub floor_to_interval-ok :
    (moment interval : ℕ)
    → 0 < interval
    → floor_to_interval moment interval ≡ ok (floored moment interval)
unfolding floor_to_interval
floor_to_interval-ok m i h = ground arith

elapsed_floor : (e i : ℕ) → 0 < i → (e / i * i ≤ e) × (e < e / i * i + i)
elapsed_floor e i h = grind arith

-- For a positive interval the floor is at or before the moment, and the moment lies before the
-- end of the interval that starts at the floor.
pub floored_bounds :
    (moment interval : ℕ)
    → 0 < interval
    → (floored moment interval ≤ moment) × (moment < floored moment interval + interval * second)
unfolding floored midnight
floored_bounds m i h = omega (arith, elapsed_floor ((m - midnight m) / second) i h)

floored_lem : (m i : ℕ) → floored m i ≡ midnight m + (m - midnight m) / second / i * i * second
unfolding floored
floored_lem m i = refl

-- The floor lies in the day of its moment.
floored_elapsed :
    (m i : ℕ)
    → 0 < i
    → (floored m i - midnight (floored m i)) / second ≡ (m - midnight m) / second / i * i
unfolding floored midnight
floored_elapsed m i h = omega (arith, elapsed_floor ((m - midnight m) / second) i h)

midnight-floored : (m i : ℕ) → 0 < i → midnight (floored m i) ≡ midnight m
unfolding floored midnight
midnight-floored m i h = omega (arith, elapsed_floor ((m - midnight m) / second) i h)

-- A moment that is already a floor stays where it is.
pub floored_idem :
    (moment interval : ℕ)
    → 0 < interval
    → floored (floored moment interval) interval ≡ floored moment interval
floored_idem m i h =
    floored_lem (floored m i) i
    ∙ rw (floored_elapsed m i h, midnight-floored m i h, mul-div_cancel _ h) (sym (floored_lem m i))
