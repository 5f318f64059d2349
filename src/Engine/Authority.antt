-- ===== src/Engine/Authority.antt =====
-- class PersistedSquareOffAuthority of common/engine/square_off.py: the square-off policy with the
-- persisted state of the day.
pub mod Runs
use algo_trading.Common.{ℕ, ◌+◌, ◌≡◌, Bool, true, false, Option, none, some, if◌then◌else◌}
use algo_trading.Risk.SquareOff.{
  SquareOffState, pending, in_progress, completed, failed, Trigger, square_off, Policy, trigger_at,
}
use algo_trading.Store.Rows.{Day, StateRow, Database}
use algo_trading.Store.States.{Save, load_strategy_state, save_strategy_state}

pub record Authority : Type 0 where
  pub policy : Policy
  pub runtime_id : ℕ
  pub day : Day
  pub expiry : Option ℕ
  pub writes : ℕ
  pub attempt_recorded : Bool
  pub state : SquareOffState

-- An unfinished attempt and an unreadable value both count as pending.
unfoldable pub restored_as : Option SquareOffState → SquareOffState
restored_as none = pending
restored_as (some in_progress) = pending
restored_as (some pending) = pending
restored_as (some completed) = completed
restored_as (some failed) = failed

unfoldable pub restored : Option StateRow → SquareOffState
unfolding restored_as
restored none = pending
restored (some row) = restored_as row.square_off_state

unfoldable pub load_state : Day → Database → SquareOffState
unfolding restored
load_state day db = restored (load_strategy_state day db)

-- `__init__`
unfoldable pub new_authority : Policy → ℕ → Day → Option ℕ → Database → Authority
unfolding load_state
new_authority policy runtime_id day expiry db = record {
  policy = policy;
  runtime_id = runtime_id;
  day = day;
  expiry = expiry;
  writes = 0;
  attempt_recorded = false;
  state = load_state day db;
}

-- The authority of a process, and the database.
pub record World : Type 0 where
  pub authority : Authority
  pub db : Database

-- A process that starts.
unfoldable pub start : Policy → ℕ → Day → Option ℕ → Database → World
unfolding new_authority
start policy runtime_id day expiry db = record {
  authority = new_authority policy runtime_id day expiry db;
  db = db;
}

-- What `_save` is to write.
abbrev pub write_of : SquareOffState → Option ℕ → Save
write_of state last_candle_end_at = record {
  last_candle_end_at = last_candle_end_at;
  square_off_state = some state;
  entries_blocked = some true;
  payload = none;
  increment_square_off_attempts = true;
}

-- `_save`; the moment of the write is `now`.
unfoldable pub save : ℕ → SquareOffState → Option ℕ → World → World
save now state last_candle_end_at w = record {
  authority = record w.authority { writes = w.authority.writes + 1 };
  db =
      save_strategy_state now w.authority.runtime_id w.authority.day
        (write_of state last_candle_end_at) w.db;
}

abbrev pub is_square_off : Trigger → Bool
is_square_off square_off = true
is_square_off _ = false

attempted : World → World
attempted w = record w { authority = record w.authority { attempt_recorded = true } }

-- The answer of `due`.
unfoldable pub is_due : ℕ → World → Bool
is_due ts w = is_square_off (trigger_at w.authority.policy ts w.authority.state w.authority.expiry)

-- What `due` leaves.
unfoldable pub due : ℕ → ℕ → World → World
unfolding attempted is_due
due now ts w =
    let noted = save now in_progress none (attempted w) in
    if is_due ts w then if w.authority.attempt_recorded then w else noted else w

abbrev pub is_completed : SquareOffState → Bool
is_completed completed = true
is_completed _ = false

finished : World → World
finished w = record w { authority = record w.authority { state = completed } }

-- `completed`; the constructor has its name.
unfoldable pub complete : ℕ → ℕ → World → World
unfolding finished
complete now ts w =
    if is_completed w.authority.state then w else save now completed (some ts) (finished w)
