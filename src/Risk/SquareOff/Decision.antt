-- ===== src/Risk/SquareOff/Decision.antt =====
-- What the square-off policy decides, as a statement about clock, expiry and stored state.
use mathlib.Core.Path.{subst}
use algo_trading.Common.{
  ℕ, ◌+◌, ◌/◌, ◌%◌, ◌≤◌, ◌<◌, ◌≡◌, refl, ◌↔◌, ◌⊎◌, inl, inr, Bool, true, false, Option, none, some,
  arith, ltb, Bool-cases,
}
use algo_trading.Common.Int.{ℤ, pos, pos_part, ◌-ℤ◌, ◌≤ℤ◌, ◌<ℤ◌, -ℤ_parts}
use algo_trading.Candles.Interval.{day}
use algo_trading.Models.{ok}
use algo_trading.Risk.SquareOff.{
  SquareOffState, pending, in_progress, completed, failed, Trigger, nothing, block_new_entries,
  square_off, Policy, new_policy, local_time, local_date, holding_overdue, at_clock, trigger_at,
  IsOutstanding,
}

at_clock-square_off :
    (p : Policy) (moment : ℕ) (overdue : Bool)
    → (at_clock p moment overdue ≡ square_off)
      ↔ ((overdue ≡ true) ⊎ (p.square_off_at ≤ p.zone moment % day))
unfolding at_clock local_time
at_clock-square_off p moment overdue = ground arith

-- The position is held past its last day: the local date is after the expiry, less the days.
abbrev pub IsOverdue : Policy → ℕ → Option ℕ → Type 0
IsOverdue p moment expiry =
    (e : ℕ) × (expiry ≡ some e)
    × (pos e -ℤ p.square_off_before_expiry_days <ℤ pos (p.zone moment / day))

accepted_order : (p : Policy) → new_policy p ≡ ok p → p.entry_cutoff ≤ p.square_off_at
unfolding new_policy
accepted_order p h = ground arith

accepted_days : (p : Policy) → new_policy p ≡ ok p → pos 0 ≤ℤ p.square_off_before_expiry_days
unfolding new_policy
accepted_days p h = ground arith

past_day : (e d : ℕ) (n : ℤ) → pos 0 ≤ℤ n → (ltb e (d + pos_part n) ≡ true) ↔ (pos e -ℤ n <ℤ pos d)
past_day e d n h = ground (arith, -ℤ_parts (pos e) n, h)

holding_overdue-IsOverdue :
    (p : Policy) (moment : ℕ) (expiry : Option ℕ)
    → pos 0 ≤ℤ p.square_off_before_expiry_days
    → (holding_overdue p moment expiry ≡ true) ↔ IsOverdue p moment expiry
unfolding holding_overdue local_date
holding_overdue-IsOverdue p moment none h =
    (λ k. absurd (ground (arith, k)), λ w. let known = w.1 in absurd (ground (arith, known)))
holding_overdue-IsOverdue p moment (some e) h =
    let past = past_day e (p.zone moment / day) p.square_off_before_expiry_days h in
    (
      λ k. (e, refl, past.0 k),
      λ w.
          let same : w.0 ≡ e = let known = w.1 in ground (arith, known) in
          past.1 (
            subst (λ x. pos x -ℤ p.square_off_before_expiry_days <ℤ pos (p.zone moment / day)) same
              w.2),
    )

at_clock-blocks :
    (p : Policy) (moment : ℕ) (overdue : Bool)
    → (at_clock p moment overdue ≡ block_new_entries) ↔ (
        (overdue ≡ false)
        × (p.entry_cutoff ≤ p.zone moment % day)
        × (p.zone moment % day < p.square_off_at))
unfolding at_clock local_time
at_clock-blocks p moment overdue = ground arith

-- What is asked for at a moment: the square-off exactly if it is outstanding and the position is held past its last day or
-- the time is come; to take no new entries exactly if it is outstanding, the position is not held
-- past its last day, and the time lies from the cut-off to before the square-off.
pub record Decides (p : Policy) (moment : ℕ) (s : SquareOffState) (expiry : Option ℕ) (t : Trigger)
    : Type 0 where
  pub squares :
      (t ≡ square_off)
      ↔ (IsOutstanding s × (IsOverdue p moment expiry ⊎ (p.square_off_at ≤ p.zone moment % day)))
  pub blocks : (t ≡ block_new_entries) ↔ (
      IsOutstanding s
      × (¬ IsOverdue p moment expiry)
      × (p.entry_cutoff ≤ p.zone moment % day)
      × (p.zone moment % day < p.square_off_at))

-- The decision while the square-off is outstanding.
clock-Decides :
    (p : Policy) (moment : ℕ) (s : SquareOffState) (expiry : Option ℕ)
    → IsOutstanding s
    → pos 0 ≤ℤ p.square_off_before_expiry_days
    → Decides p moment s expiry (at_clock p moment (holding_overdue p moment expiry))
clock-Decides p moment s expiry out h =
    let overdue = holding_overdue p moment expiry in
    let squares = at_clock-square_off p moment overdue in
    let blocks = at_clock-blocks p moment overdue in
    let held = holding_overdue-IsOverdue p moment expiry h in
    record {
      squares = (
        λ k. (out, elim (squares.0 k) [ inl late ↦ inl (held.0 late) | inr time ↦ inr time ]),
        λ w. squares.1 (elim w.1 [ inl late ↦ inl (held.1 late) | inr time ↦ inr time ]),
      );
      blocks = (
        λ k.
            let parts = blocks.0 k in
            (
              out,
              λ late.
                  let over = held.1 late in
                  let within = parts.0 in absurd (ground (arith, over, within)),
              parts.1,
              parts.2,
            ),
        λ w. blocks.1 (
          elim (Bool-cases overdue) [ inl late ↦ absurd (w.1 (held.0 late)) | inr within ↦ within ],
          w.2,
          w.3,
        ),
      );
    }

settled-Decides :
    (p : Policy) (moment : ℕ) (s : SquareOffState) (expiry : Option ℕ)
    → ¬ IsOutstanding s
    → Decides p moment s expiry nothing
settled-Decides p moment s expiry out = record {
  squares = (λ k. absurd (ground (arith, k)), λ w. absurd (out w.0));
  blocks = (λ k. absurd (ground (arith, k)), λ w. absurd (out w.0));
}

-- Under a policy that the constructor accepts, the square-off is asked for exactly if it is
-- outstanding and the local date is after the expiry less the days before it, or the local time has
-- come to the square-off. Only new entries are blocked exactly if it is outstanding, that date is not
-- passed, and the local time lies from the cut-off to before the square-off.
pub trigger_at-Decides :
    (p : Policy) (moment : ℕ) (s : SquareOffState) (expiry : Option ℕ)
    → new_policy p ≡ ok p
    → Decides p moment s expiry (trigger_at p moment s expiry)
unfolding trigger_at
trigger_at-Decides p moment pending expiry h =
    clock-Decides p moment pending expiry tt (accepted_days p h)
trigger_at-Decides p moment failed expiry h =
    clock-Decides p moment failed expiry tt (accepted_days p h)
trigger_at-Decides p moment in_progress expiry h =
    settled-Decides p moment in_progress expiry (λ x. x)
trigger_at-Decides p moment completed expiry h = settled-Decides p moment completed expiry (λ x. x)
