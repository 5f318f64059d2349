-- ===== src/Engine/Authority/Runs.antt =====
-- The calls of the authority in any order, and a restart after them.
use algo_trading.Common.{
  ℕ, ◌+◌, ◌≤◌, ◌≡◌, refl, Bool, true, false, Option, none, some, List, [], ◌∷◌, arith, ap, sym, ◌∙◌,
  if◌then◌else◌, if-holds,
}
use algo_trading.Common.Table.{find, find-put_self}
use algo_trading.Risk.SquareOff.{
  SquareOffState, pending, in_progress, completed, failed, Policy, trigger_at,
}
use algo_trading.Store.Rows.{Day, same_day, same_day_iff, StateRow, Database}
use algo_trading.Store.States.{Save, load_strategy_state, save_strategy_state, saved}
use algo_trading.Engine.Authority.{
  World, write_of, is_completed, finished, attempted, restored_as, start, is_due, restored,
  Authority, load_state, save, is_square_off, due, complete,
}

-- A call, at the moment of the tick and of the write.
pub data Call : Type 0 where
  ask finish : ℕ → ℕ → Call

unfoldable pub step : Call → World → World
step (ask now ts) w = due now ts w
step (finish now ts) w = complete now ts w

unfoldable pub run : List Call → World → World
unfolding step
run [] w = w
run (c ∷ cs) w = run cs (step c w)

abbrev pub is_begun : SquareOffState → Bool
is_begun in_progress = true
is_begun _ = false

-- Of each kind of write, one is left.
abbrev budget : Authority → ℕ
budget a = (if a.attempt_recorded then 0 else 1) + (if is_completed a.state then 0 else 1)

abbrev attempts_in : Option StateRow → ℕ
attempts_in none = 0
attempts_in (some row) = row.square_off_attempts

-- `square_off_attempts` of a day.
unfoldable pub attempts_on : Day → Database → ℕ
attempts_on day db = attempts_in (load_strategy_state day db)

-- What a step keeps, from a world to the next.
record IsStep (v w : World) : Type 0 where
  same_policy : w.authority.policy ≡ v.authority.policy
  same_day : w.authority.day ≡ v.authority.day
  same_expiry : w.authority.expiry ≡ v.authority.expiry
  spent : w.authority.writes + budget w.authority ≤ v.authority.writes + budget v.authority
  counted :
      attempts_on v.authority.day w.db + v.authority.writes
      ≡ attempts_on v.authority.day v.db + w.authority.writes
  persisted :
      is_completed (load_state v.authority.day v.db) ≡ is_completed v.authority.state
      → is_completed (load_state v.authority.day w.db) ≡ is_completed w.authority.state
  waiting : is_begun v.authority.state ≡ false → is_begun w.authority.state ≡ false

stays : (w : World) → IsStep w w
stays w = record {
  same_policy = refl;
  same_day = refl;
  same_expiry = refl;
  spent = omega arith;
  counted = refl;
  persisted = λ h. h;
  waiting = λ h. h;
}

-- What a write leaves of the row of the day.
saved_row :
    (now runtime_id : ℕ) (s : Save) (state : SquareOffState) (o : Option StateRow)
    → s.square_off_state ≡ some state
    → s.increment_square_off_attempts ≡ true
    → (saved now runtime_id s o).square_off_state ≡ some state
      × (saved now runtime_id s o).square_off_attempts ≡ attempts_in o + 1
unfolding saved
saved_row now runtime_id s state none h count = rw (h, count) (refl, refl)
saved_row now runtime_id s state (some row) h count = rw (h, count) (refl, refl)

-- The database after a write.
module _ (now : ℕ) (state : SquareOffState) (seen : Option ℕ) (w : World) where
  save_attempts :
      attempts_on w.authority.day (save now state seen w).db ≡ attempts_on w.authority.day w.db + 1
  unfolding attempts_on load_strategy_state save save_strategy_state
  save_attempts =
      rw (find-put_self same_day same_day_iff w.authority.day _ w.db.states)
        (saved_row now w.authority.runtime_id (write_of state seen) state
          (find same_day w.authority.day w.db.states) refl refl).1

  save_state : load_state w.authority.day (save now state seen w).db ≡ restored_as (some state)
  unfolding load_state load_strategy_state save save_strategy_state restored
  save_state = rw (
    find-put_self same_day same_day_iff w.authority.day _ w.db.states,
    (saved_row now w.authority.runtime_id (write_of state seen) state
        (find same_day w.authority.day w.db.states) refl refl).0,
  )

due-waiting :
    (p : Policy) (ts : ℕ) (s : SquareOffState) (expiry : Option ℕ)
    → is_square_off (trigger_at p ts s expiry) ≡ true
    → is_completed s ≡ false
unfolding trigger_at
due-waiting p ts completed expiry h = ground (arith, h)
due-waiting p ts pending expiry h = refl
due-waiting p ts in_progress expiry h = refl
due-waiting p ts failed expiry h = refl

first-IsStep :
    (now : ℕ) (w : World)
    → w.authority.attempt_recorded ≡ false
    → is_completed w.authority.state ≡ false
    → IsStep w (save now in_progress none (attempted w))
unfolding attempted
first-IsStep now w first waiting = record {
  same_policy = unfold save in refl;
  same_day = unfold save in refl;
  same_expiry = unfold save in refl;
  spent = unfold save in ground (arith, first);
  counted = unfold save in omega (arith, save_attempts now in_progress none (attempted w));
  persisted =
      unfold restored_as in
      λ _. rw (save_state now in_progress none (attempted w)) (unfold save in sym waiting);
  waiting = unfold save in λ h. h;
}

ask-IsStep : (now ts : ℕ) (w : World) → IsStep w (due now ts w)
unfolding due is_due
ask-IsStep now ts w =
    let noted = save now in_progress none (attempted w) in
    if-holds (IsStep w) (is_due ts w) (if w.authority.attempt_recorded then w else noted) w
      (λ ready.
        if-holds (IsStep w) w.authority.attempt_recorded w noted (λ _. stays w)
          (λ first. first-IsStep now w first (due-waiting _ ts w.authority.state _ ready)))
      (λ _. stays w)

finish-IsStep : (now ts : ℕ) (w : World) → IsStep w (complete now ts w)
unfolding complete finished
finish-IsStep now ts w =
    if-holds (IsStep w) (is_completed w.authority.state) w
      (save now completed (some ts) (finished w)) (λ _. stays w)
      (λ first. record {
        same_policy = unfold save in refl;
        same_day = unfold save in refl;
        same_expiry = unfold save in refl;
        spent = unfold save in ground (arith, first);
        counted = unfold save in omega (arith, save_attempts now completed (some ts) (finished w));
        persisted =
            unfold restored_as in
            λ _. rw (save_state now completed (some ts) (finished w)) (unfold save in refl);
        waiting = unfold save in λ _. refl;
      })

step-IsStep : (c : Call) (w : World) → IsStep w (step c w)
unfolding step
step-IsStep (ask now ts) w = ask-IsStep now ts w
step-IsStep (finish now ts) w = finish-IsStep now ts w

IsStep-trans : (u v w : World) → IsStep u v → IsStep v w → IsStep u w
IsStep-trans u v w p q =
    let counts : attempts_on u.authority.day w.db + v.authority.writes
        ≡ attempts_on u.authority.day v.db + w.authority.writes =
      rw (← p.same_day) q.counted in
    let states : is_completed (load_state u.authority.day v.db) ≡ is_completed v.authority.state
        → is_completed (load_state u.authority.day w.db) ≡ is_completed w.authority.state =
      rw (← p.same_day) q.persisted in
    record {
      same_policy = q.same_policy ∙ p.same_policy;
      same_day = q.same_day ∙ p.same_day;
      same_expiry = q.same_expiry ∙ p.same_expiry;
      spent = omega (arith, p.spent, q.spent);
      counted = omega (arith, p.counted, counts);
      persisted = λ h. states (p.persisted h);
      waiting = λ h. q.waiting (p.waiting h);
    }

run-IsStep : (cs : List Call) (w : World) → IsStep w (run cs w)
unfolding run
run-IsStep [] w = stays w
run-IsStep (c ∷ cs) w =
    IsStep-trans w (step c w) (run cs (step c w)) (step-IsStep c w) (run-IsStep cs (step c w))

restored-not_begun : (o : Option StateRow) → is_begun (restored o) ≡ false
unfolding restored restored_as
restored-not_begun none = refl
restored-not_begun (some row) = ground arith

trigger_lem :
    (p : Policy) (ts : ℕ) (s t : SquareOffState) (expiry : Option ℕ)
    → is_begun s ≡ false
    → is_begun t ≡ false
    → is_completed s ≡ is_completed t
    → trigger_at p ts s expiry ≡ trigger_at p ts t expiry
unfolding trigger_at
trigger_lem p ts s t expiry hs ht h = ground (arith, hs, ht, h)

module _ (policy : Policy) (runtime_id : ℕ) (day : Day) (expiry : Option ℕ) (db : Database) where
  -- Any calls of `due` and `completed` of a process that starts make at most two writes, and the
  -- attempts that the row of the day counts grow by the number of the writes.
  pub run-writes :
      (cs : List Call)
      → let w = run cs (start policy runtime_id day expiry db) in
        w.authority.writes ≤ 2 × attempts_on day w.db ≡ attempts_on day db + w.authority.writes
  unfolding start
  run-writes cs =
      let steps = run-IsStep cs (start policy runtime_id day expiry db) in
      (ground (arith, steps.spent), ground (arith, steps.counted))

  -- After any calls of `due` and `completed`, a process that starts anew on the database gives the
  -- answers of the process that made the calls, at every moment.
  pub run-restart :
      (cs : List Call) (restarted_id ts : ℕ)
      → let w = run cs (start policy runtime_id day expiry db) in
        is_due ts (start policy restarted_id day expiry w.db) ≡ is_due ts w
  unfolding is_due start
  run-restart cs restarted_id ts =
      let v = start policy runtime_id day expiry db in
      let w = run cs v in
      let steps = run-IsStep cs v in
      let fresh : is_begun v.authority.state ≡ false = unfold load_state in restored-not_begun _ in
      let again : is_begun (load_state day w.db) ≡ false =
        unfold load_state in restored-not_begun _ in
      rw (steps.same_policy, steps.same_expiry)
        (ap is_square_off (
          trigger_lem policy ts (load_state day w.db) w.authority.state expiry again
            (steps.waiting fresh) (steps.persisted refl)))
