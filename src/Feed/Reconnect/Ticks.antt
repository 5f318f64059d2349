-- ===== src/Feed/Reconnect/Ticks.antt =====
-- What ticks do to the feed: they are handed on, and end a run of failures.
use algo_trading.Common.{
  ℕ, ◌≤◌, ◌≡◌, ◌≢◌, ◌⊎◌, refl, ◌∙◌, true, false, List, [], ◌∷◌, All, arith, leb, if-holds, inl, inr,
}
use algo_trading.Models.{Tick}
use algo_trading.Feed.Reconnect.{
  ReconnectPolicy, ReconnectingFeed, Beat, ticked, stop_called, request_stop_called, Session,
  Ending, returned, raised, Progress, continuing, finished, unavailable, emit, mark_connected,
  close_owned, recover, note_tick, hand_on, close_if_stopped, observe, stop, request_stop, beat,
  beats, mark_disconnected, maybe_refresh, reconnect, reconnect_attempted, reconnect_exhausted,
  count_failure, fall_asleep, retry, disconnected, failed_in, ended, turn, continue_with, run,
}

-- A feed that is not degraded has no failures in a row.
unfoldable pub IsTracked : ReconnectingFeed → Type 0
IsTracked f = (f.health.degraded ≡ true) ⊎ (f.consecutive_failures ≡ 0)

-- A feed after a tick.
record IsFresh (f : ReconnectingFeed) : Type 0 where
  live : f.health.degraded ≡ false
  no_failures : f.consecutive_failures ≡ 0

abbrev pub ticks_of : List Beat → List Tick
ticks_of [] = []
ticks_of (ticked t ∷ bs) = t ∷ ticks_of bs
ticks_of (stop_called ∷ bs) = ticks_of bs
ticks_of (request_stop_called ∷ bs) = ticks_of bs

abbrev pub HasTick : List Beat → Type 0
HasTick [] = ⊥
HasTick (ticked t ∷ bs) = Unit
HasTick (stop_called ∷ bs) = HasTick bs
HasTick (request_stop_called ∷ bs) = HasTick bs

closed-IsFresh : (f : ReconnectingFeed) → IsFresh f → IsFresh (close_owned f)
unfolding close_owned
closed-IsFresh f h =
    if-holds IsFresh f.closed f _ (λ _. h)
      (λ _. record { live = h.live; no_failures = h.no_failures })

not_degraded :
    (f : ReconnectingFeed) → IsTracked f → f.health.degraded ≡ false → f.consecutive_failures ≡ 0
unfolding IsTracked
not_degraded f (inl degraded) live = absurd (ground (arith, degraded, live))
not_degraded f (inr none_left) live = none_left

recover-IsFresh :
    (security_id : ℕ) (f : ReconnectingFeed) → IsTracked f → IsFresh (recover security_id f)
unfolding recover
recover-IsFresh security_id f h =
    if-holds IsFresh f.health.degraded _ f
      (λ _. unfold emit in record { live = refl; no_failures = refl })
      (λ live. record { live = live; no_failures = not_degraded f h live })

closed_if_stopped-IsFresh : (f : ReconnectingFeed) → IsFresh f → IsFresh (close_if_stopped f)
unfolding close_if_stopped
closed_if_stopped-IsFresh f h =
    if-holds IsFresh f.stopped (close_owned f) f (λ _. closed-IsFresh f h) (λ _. h)

observe-IsFresh : (t : Tick) (f : ReconnectingFeed) → IsTracked f → IsFresh (observe t f)
unfolding observe note_tick hand_on
observe-IsFresh t f h =
    let noted = note_tick t f in
    let told = recover-IsFresh t.security_id noted (unfold IsTracked in h) in
    closed_if_stopped-IsFresh (hand_on t (recover t.security_id noted))
      (record { live = told.live; no_failures = told.no_failures })

fresh-IsTracked : (f : ReconnectingFeed) → IsFresh f → IsTracked f
unfolding IsTracked
fresh-IsTracked f h = inr h.no_failures

beat-IsTracked : (b : Beat) (f : ReconnectingFeed) → IsTracked f → IsTracked (beat b f)
unfolding beat
beat-IsTracked (ticked t) f h = fresh-IsTracked (observe t f) (observe-IsFresh t f h)
beat-IsTracked stop_called f h = unfold stop IsTracked in h
beat-IsTracked request_stop_called f h = unfold request_stop IsTracked in h

beat-IsFresh : (b : Beat) (f : ReconnectingFeed) → IsFresh f → IsFresh (beat b f)
unfolding beat
beat-IsFresh (ticked t) f h = observe-IsFresh t f (fresh-IsTracked f h)
beat-IsFresh stop_called f h = unfold stop in record { live = h.live; no_failures = h.no_failures }
beat-IsFresh request_stop_called f h =
    unfold request_stop in record { live = h.live; no_failures = h.no_failures }

beats_stay-IsFresh : (bs : List Beat) (f : ReconnectingFeed) → IsFresh f → IsFresh (beats bs f)
unfolding beats
beats_stay-IsFresh [] f h = h
beats_stay-IsFresh (b ∷ bs) f h = beats_stay-IsFresh bs (beat b f) (beat-IsFresh b f h)

beats-IsFresh :
    (bs : List Beat) (f : ReconnectingFeed) → HasTick bs → IsTracked f → IsFresh (beats bs f)
unfolding beats
beats-IsFresh [] f ticks h = absurd ticks
beats-IsFresh (ticked t ∷ bs) f ticks h =
    unfold beat in beats_stay-IsFresh bs (observe t f) (observe-IsFresh t f h)
beats-IsFresh (stop_called ∷ bs) f ticks h =
    beats-IsFresh bs (beat stop_called f) ticks (beat-IsTracked stop_called f h)
beats-IsFresh (request_stop_called ∷ bs) f ticks h =
    beats-IsFresh bs (beat request_stop_called f) ticks (beat-IsTracked request_stop_called f h)

-- A turn that does not give up, and leaves a feed that is tracked.
KeepsOn : Progress × ReconnectingFeed → Type 0
KeepsOn r = (r.0 ≢ unavailable) × IsTracked r.1

asleep_degraded :
    (s : Session) (f : ReconnectingFeed) → (fall_asleep s f).health.degraded ≡ f.health.degraded
unfolding fall_asleep
asleep_degraded s f =
    if-holds (λ g. g.health.degraded ≡ f.health.degraded) s.stopped_asleep (stop f) f
      (λ _. unfold stop in refl) (λ _. refl)

retry-KeepsOn :
    (p : ReconnectPolicy) (s : Session) (f : ReconnectingFeed)
    → f.health.degraded ≡ true
    → f.consecutive_failures ≡ 1
    → 2 ≤ p.max_attempts
    → KeepsOn (retry p s f)
unfolding retry KeepsOn
retry-KeepsOn p s f degraded once two =
    let n = f.consecutive_failures in
    let told = emit (reconnect_attempted n) (maybe_refresh s f) in
    if-holds KeepsOn (leb p.max_attempts n) (unavailable, emit (reconnect_exhausted n) f)
      (continuing, reconnect s (fall_asleep s told))
      (λ over. absurd (ground (arith, over, once, two)))
      (λ _. (
        λ e. absurd (ground (arith, e)),
        unfold IsTracked reconnect emit maybe_refresh in inl (asleep_degraded s told ∙ degraded),
      ))

failed_in-KeepsOn :
    (p : ReconnectPolicy) (s : Session) (f : ReconnectingFeed)
    → IsFresh f
    → 2 ≤ p.max_attempts
    → KeepsOn (failed_in p s f)
unfolding failed_in KeepsOn
failed_in-KeepsOn p s f h two =
    let g = mark_disconnected s (count_failure f) in
    if-holds KeepsOn f.stopped (finished, disconnected f) (retry p s g)
      (λ _. (λ e. absurd (ground (arith, e)), unfold IsTracked disconnected in inr h.no_failures))
      (λ _.
        let none_left = h.no_failures in
        unfold mark_disconnected count_failure emit in
        retry-KeepsOn p s g refl (omega (arith, none_left)) two)

ended-KeepsOn :
    (p : ReconnectPolicy) (s : Session) (f : ReconnectingFeed) (e : Ending)
    → IsFresh f
    → 2 ≤ p.max_attempts
    → KeepsOn (ended p s f e)
unfolding ended KeepsOn
ended-KeepsOn p s f returned h two =
    (λ e. absurd (ground (arith, e)), unfold IsTracked disconnected in inr h.no_failures)
ended-KeepsOn p s f raised h two = failed_in-KeepsOn p s f h two

turn-KeepsOn :
    (p : ReconnectPolicy) (s : Session) (f : ReconnectingFeed)
    → HasTick s.beats
    → IsTracked f
    → 2 ≤ p.max_attempts
    → KeepsOn (turn p s f)
unfolding turn KeepsOn
turn-KeepsOn p s f ticks h two =
    let m = mark_connected s.connected_at f in
    let known : IsTracked m = unfold mark_connected emit IsTracked in h in
    if-holds KeepsOn f.stopped (finished, disconnected f) (ended p s (beats s.beats m) s.ending)
      (λ _. (λ e. absurd (ground (arith, e)), unfold IsTracked disconnected in h))
      (λ _. ended-KeepsOn p s (beats s.beats m) s.ending (beats-IsFresh s.beats m ticks known) two)

continue-KeepsOn :
    (now rest : Progress × ReconnectingFeed)
    → KeepsOn now
    → KeepsOn rest
    → KeepsOn (continue_with now rest)
unfolding continue_with
continue-KeepsOn (continuing, f) rest h hs = hs
continue-KeepsOn (finished, f) rest h hs = h
continue-KeepsOn (unavailable, f) rest h hs = h

run-KeepsOn :
    (p : ReconnectPolicy) (ss : List Session) (f : ReconnectingFeed)
    → All (λ s. HasTick s.beats) ss
    → IsTracked f
    → 2 ≤ p.max_attempts
    → KeepsOn (run p ss f)
unfolding run
run-KeepsOn p [] f ticks h two = unfold KeepsOn in (λ e. absurd (ground (arith, e)), h)
run-KeepsOn p (s ∷ ss) f (tick, ticks) h two =
    let now = turn p s f in
    let kept = turn-KeepsOn p s f tick h two in
    continue-KeepsOn now (run p ss now.1) kept
      (run-KeepsOn p ss now.1 ticks (unfold KeepsOn in kept.1) two)

-- A feed that has no failures in a row unless it is degraded, under a policy of at least two
-- attempts: while every connection brings a tick before it fails, it never gives up, however many
-- connections fail.
pub run_delivering :
    (p : ReconnectPolicy) (ss : List Session) (f : ReconnectingFeed)
    → All (λ s. HasTick s.beats) ss
    → IsTracked f
    → 2 ≤ p.max_attempts
    → (run p ss f).0 ≢ unavailable
unfolding KeepsOn
run_delivering p ss f ticks h two = (run-KeepsOn p ss f ticks h two).0
