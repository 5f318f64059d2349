-- ===== src/Feed/Reconnect.antt =====
-- common/feed/reconnect.py: ReconnectPolicy, FeedHealth and ReconnectingFeed. What one connection of
-- the adapter brings is an argument, `Session`: its ticks, how it ends, and whether a stop is asked
-- for; so are the moments that the clock shows. The texts of the reasons are not kept, and `stop` is
-- another thread's. A delay is a fraction, and the jitter and its draw
-- are numbers of thousandths, the multiplier too. Closing the adapter does not raise, nor
-- does subscribing again on a new connection.
pub mod Attempts
pub mod Delays
pub mod Ticks
pub mod Delivered
mod Tests
use algo_trading.Common.{
  ℕ, zero, suc, ◌+◌, ◌-◌, ◌*◌, min, Bool, true, false, not, ◌||◌, Option, none, some, List, [], ◌∷◌,
  ◌++◌, leb, ltb, ◌==◌, if◌then◌else◌, length,
}
use algo_trading.Common.Int.{ℤ, pos, ◌+ℤ◌, ◌-ℤ◌}
use algo_trading.Common.Dict.{Dict, insert}
use algo_trading.Models.{Tick, Result, ok, err, value_error}

pub record ReconnectPolicy : Type 0 where
  pub max_attempts : ℕ
  pub initial_backoff : ℕ
  pub max_backoff : ℕ
  pub multiplier : ℕ
  pub jitter_ratio : ℕ

unfoldable pub new_policy : ReconnectPolicy → Result ReconnectPolicy
new_policy p =
    if ltb p.max_attempts 1
    then err value_error
    else if p.initial_backoff == 0 || p.max_backoff == 0
    then err value_error
    else if ltb p.multiplier 1000
    then err value_error
    else if ltb 1000 p.jitter_ratio
    then err value_error
    else ok p

unfoldable pub power : ℕ → ℕ → ℕ
power b zero = 1
power b (suc n) = b * power b n

pub record Fraction : Type 0 where
  pub numerator : ℕ
  pub denominator : ℕ

-- The smaller of the grown and the largest backoff, over the same denominator, less the jitter.
unfoldable pub delay_for : ReconnectPolicy → ℕ → ℕ → Result Fraction
unfolding power
delay_for p zero draw = err value_error
delay_for p (suc n) draw =
    let unit = power 1000 n in
    ok (record {
      numerator =
          min (p.initial_backoff * power p.multiplier n) (p.max_backoff * unit)
          * (1000000 - p.jitter_ratio * draw);
      denominator = unit * 1000000;
    })

pub data Event : Type 0 where
  connected_event : Option ℤ → Event
  disconnected_event : Option ℕ → Event
  recovered : ℕ → Event
  reconnect_attempted : ℕ → Event
  reconnect_exhausted : ℕ → Event
  resubscribed : ℕ → ℕ → Event

pub record FeedHealth : Type 0 where
  pub connected : Bool
  pub degraded : Bool
  pub reconnect_count : ℕ
  pub failed_attempts : ℕ
  pub token_refreshes : ℕ
  pub last_disconnect_code : Option ℕ
  pub last_connected_at : Option ℕ
  pub last_disconnected_at : Option ℕ
  pub total_downtime : ℤ
  pub expected_subscriptions : ℕ
  pub active_subscriptions : ℕ
  pub last_tick_at : Dict ℕ
  pub gap_candles_discarded : ℕ

-- `delivered` is what `on_tick` was called with and `events` what the sink was.
pub record ReconnectingFeed : Type 0 where
  pub health : FeedHealth
  pub security_ids : List ℕ
  pub stopped : Bool
  pub closed : Bool
  pub consecutive_failures : ℕ
  pub delivered : List Tick
  pub events : List Event

pub data Ending : Type 0 where
  returned raised : Ending

-- What happens while the adapter runs: a tick, or a call of another thread.
pub data Beat : Type 0 where
  ticked : Tick → Beat
  stop_called request_stop_called : Beat

-- One connection: `code` is the adapter's code at its end, `gap` the answer of `on_feed_gap`,
-- `refresh` whether a refresh of the token succeeds and `subscribed` how many instruments the adapter
-- then reports; each is none where there is no such callback or code.
pub record Session : Type 0 where
  pub connected_at : ℕ
  pub beats : List Beat
  pub ending : Ending
  pub disconnected_at : ℕ
  pub code : Option ℕ
  pub gap : Option ℕ
  pub refresh : Option Bool
  pub stopped_asleep : Bool
  pub subscribed : ℕ

unfoldable pub emit : Event → ReconnectingFeed → ReconnectingFeed
emit e f = record f { events = f.events ++ e ∷ [] }

-- The downtime that ends at a moment.
downtime : ℕ → Option ℕ → Option ℤ
downtime now none = none
downtime now (some since) = some (pos now -ℤ pos since)

added : ℤ → Option ℤ → ℤ
added total none = total
added total (some gap) = total +ℤ gap

unfoldable pub mark_connected : ℕ → ReconnectingFeed → ReconnectingFeed
unfolding emit downtime added
mark_connected now f =
    let gap = downtime now f.health.last_disconnected_at in
    emit (connected_event gap) (record f {
      health = record f.health {
        connected = true;
        last_connected_at = some now;
        last_disconnected_at = none;
        total_downtime = added f.health.total_downtime gap;
      };
    })

-- `_close_owned_adapter`
unfoldable pub close_owned : ReconnectingFeed → ReconnectingFeed
close_owned f =
    if f.closed
    then f
    else record f { closed = true; health = record f.health { connected = false } }

unfoldable pub recover : ℕ → ReconnectingFeed → ReconnectingFeed
unfolding emit
recover security_id f =
    if f.health.degraded
    then emit (recovered security_id)
        (record f { health = record f.health { degraded = false }; consecutive_failures = 0 })
    else f

note_tick : Tick → ReconnectingFeed → ReconnectingFeed
note_tick t f = record f {
  health = record f.health {
    last_tick_at = insert t.security_id t.exchange_time f.health.last_tick_at;
  };
}

hand_on : Tick → ReconnectingFeed → ReconnectingFeed
hand_on t f = record f { delivered = f.delivered ++ t ∷ [] }

close_if_stopped : ReconnectingFeed → ReconnectingFeed
unfolding close_owned
close_if_stopped f = if f.stopped then close_owned f else f

-- `_observe` of `_wrap`
unfoldable pub observe : Tick → ReconnectingFeed → ReconnectingFeed
unfolding close_if_stopped hand_on recover note_tick
observe t f = close_if_stopped (hand_on t (recover t.security_id (note_tick t f)))

unfoldable pub stop : ReconnectingFeed → ReconnectingFeed
stop f = record f { stopped = true; health = record f.health { connected = false } }

unfoldable pub request_stop : ReconnectingFeed → ReconnectingFeed
request_stop f = record f { stopped = true }

unfoldable pub beat : Beat → ReconnectingFeed → ReconnectingFeed
unfolding observe stop request_stop
beat (ticked t) f = observe t f
beat stop_called f = stop f
beat request_stop_called f = request_stop f

unfoldable pub beats : List Beat → ReconnectingFeed → ReconnectingFeed
unfolding beat
beats [] f = f
beats (b ∷ bs) f = beats bs (beat b f)

code_or : Option ℕ → Option ℕ → Option ℕ
code_or (some code) old = some code
code_or none old = old

count_gap : Option ℕ → ℕ → ℕ
count_gap none n = n
count_gap (some discarded) n = n + discarded

unfoldable pub mark_disconnected : Session → ReconnectingFeed → ReconnectingFeed
unfolding emit code_or count_gap
mark_disconnected s f =
    let code = code_or s.code f.health.last_disconnect_code in
    emit (disconnected_event code) (record f {
      health = record f.health {
        connected = false;
        degraded = true;
        last_disconnected_at = some s.disconnected_at;
        last_disconnect_code = code;
        gap_candles_discarded = count_gap s.gap f.health.gap_candles_discarded;
      };
    })

refreshed : Option ℕ → Option Bool → ℕ → ℕ
refreshed (some code) (some true) n = if code == 807 then n + 1 else n
refreshed _ _ n = n

-- `_maybe_refresh_token`
unfoldable pub maybe_refresh : Session → ReconnectingFeed → ReconnectingFeed
unfolding refreshed
maybe_refresh s f = record f {
  health = record f.health {
    token_refreshes = refreshed f.health.last_disconnect_code s.refresh f.health.token_refreshes;
  };
}

unfoldable pub reconnect : Session → ReconnectingFeed → ReconnectingFeed
unfolding emit
reconnect s f = emit (resubscribed f.health.expected_subscriptions s.subscribed) (record f {
  health = record f.health {
    reconnect_count = f.health.reconnect_count + 1;
    active_subscriptions = s.subscribed;
  };
})

unfoldable pub count_failure : ReconnectingFeed → ReconnectingFeed
count_failure f = record f {
  consecutive_failures = f.consecutive_failures + 1;
  health = record f.health { failed_attempts = f.health.failed_attempts + 1 };
}

-- The loop goes on, ends, or raises FeedUnavailableError.
pub data Progress : Type 0 where
  continuing finished unavailable : Progress

fall_asleep : Session → ReconnectingFeed → ReconnectingFeed
fall_asleep s f = if s.stopped_asleep then stop f else f

-- What follows a failure that is counted and marked.
unfoldable pub retry : ReconnectPolicy → Session → ReconnectingFeed → Progress × ReconnectingFeed
unfolding emit maybe_refresh reconnect fall_asleep
retry p s f =
    let attempt = f.consecutive_failures in
    if leb p.max_attempts attempt then (unavailable, emit (reconnect_exhausted attempt) f) else (
      continuing,
      reconnect s (fall_asleep s (emit (reconnect_attempted attempt) (maybe_refresh s f))),
    )

disconnected : ReconnectingFeed → ReconnectingFeed
disconnected f = record f { health = record f.health { connected = false } }

failed_in : ReconnectPolicy → Session → ReconnectingFeed → Progress × ReconnectingFeed
unfolding retry mark_disconnected count_failure disconnected
failed_in p s f =
    if f.stopped
    then (finished, disconnected f)
    else retry p s (mark_disconnected s (count_failure f))

ended : ReconnectPolicy → Session → ReconnectingFeed → Ending → Progress × ReconnectingFeed
unfolding failed_in disconnected
ended p s f returned = (finished, disconnected f)
ended p s f raised = failed_in p s f

-- A turn of the loop of `_run`.
unfoldable pub turn : ReconnectPolicy → Session → ReconnectingFeed → Progress × ReconnectingFeed
unfolding ended beats mark_connected disconnected
turn p s f =
    if f.stopped
    then (finished, disconnected f)
    else ended p s (beats s.beats (mark_connected s.connected_at f)) s.ending

continue_with :
    Progress × ReconnectingFeed → Progress × ReconnectingFeed → Progress × ReconnectingFeed
continue_with (continuing, f) rest = rest
continue_with (finished, f) rest = (finished, f)
continue_with (unavailable, f) rest = (unavailable, f)

-- `_run` over the connections that come, as long as it goes on.
unfoldable pub run : ReconnectPolicy → List Session → ReconnectingFeed → Progress × ReconnectingFeed
unfolding continue_with turn
run p [] f = (continuing, f)
run p (s ∷ ss) f = let now = turn p s f in let rest = run p ss now.1 in continue_with now rest

-- What `start` raises or does before and after the loop.
unfoldable pub opened : ReconnectingFeed → ReconnectingFeed
opened f = record f { consecutive_failures = 0; closed = false }

unfoldable pub start :
    ReconnectPolicy → List Session → ReconnectingFeed → Progress × ReconnectingFeed
unfolding opened run close_owned
start p ss f =
    if length f.security_ids == 0
    then (unavailable, f)
    else let (progress, f1) = run p ss (opened f) in (progress, close_owned f1)
