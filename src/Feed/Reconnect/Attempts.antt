-- ===== src/Feed/Reconnect/Attempts.antt =====
-- When the feed gives up.
use algo_trading.Common.{
  ◌+◌, ◌<◌, ◌≡◌, refl, ap, ◌∙◌, true, false, List, [], ◌∷◌, ◌++◌, length, All, arith, leb,
  if◌then◌else◌, if-holds,
}
use algo_trading.Feed.Reconnect.{
  ReconnectPolicy, ReconnectingFeed, Session, raised, reconnect_attempted, reconnect_exhausted,
  Progress, continuing, finished, unavailable, emit, mark_connected, stop, beats, mark_disconnected,
  maybe_refresh, reconnect, count_failure, fall_asleep, retry, disconnected, failed_in, ended, turn,
  continue_with, run,
}

-- A connection that fails before any tick and without a stop.
pub record IsSilent (s : Session) : Type 0 where
  pub no_beats : s.beats ≡ []
  pub failed : s.ending ≡ raised
  pub awake : s.stopped_asleep ≡ false

-- What an attempt leaves of the feed whose failure it counts.
record IsAttempt (p : ReconnectPolicy) (f : ReconnectingFeed) (r : Progress × ReconnectingFeed)
    : Type 0 where
  progress : r.0 ≡ (if leb p.max_attempts f.consecutive_failures then unavailable else continuing)
  failures : r.1.consecutive_failures ≡ f.consecutive_failures
  attempts : r.1.health.failed_attempts ≡ f.health.failed_attempts
  running : r.1.stopped ≡ f.stopped

after_failure : Session → ReconnectingFeed → ReconnectingFeed
unfolding mark_disconnected count_failure mark_connected
after_failure s f = mark_disconnected s (count_failure (mark_connected s.connected_at f))

turn_running :
    (p : ReconnectPolicy) (s : Session) (f : ReconnectingFeed)
    → f.stopped ≡ false
    → turn p s f ≡ ended p s (beats s.beats (mark_connected s.connected_at f)) s.ending
unfolding turn
turn_running p s f running =
    ap
      (λ b.
        if b
        then (finished, disconnected f)
        else ended p s (beats s.beats (mark_connected s.connected_at f)) s.ending)
      running

silent_turn :
    (p : ReconnectPolicy) (s : Session) (f : ReconnectingFeed)
    → IsSilent s
    → f.stopped ≡ false
    → turn p s f ≡ retry p s (after_failure s f)
unfolding ended failed_in beats after_failure
silent_turn p s f h running =
    let m = mark_connected s.connected_at f in
    turn_running p s f running
    ∙ ap (λ bs. ended p s (beats bs m) s.ending) h.no_beats
    ∙ ap (λ e. ended p s m e) h.failed
    ∙ ap (λ b. if b then (finished, disconnected m) else retry p s (after_failure s f)) running

awake_asleep : (s : Session) (f : ReconnectingFeed) → s.stopped_asleep ≡ false → fall_asleep s f ≡ f
unfolding fall_asleep
awake_asleep s f awake = ap (λ b. if b then stop f else f) awake

retry-IsAttempt :
    (p : ReconnectPolicy) (s : Session) (f : ReconnectingFeed)
    → s.stopped_asleep ≡ false
    → IsAttempt p f (retry p s f)
unfolding retry
retry-IsAttempt p s f awake =
    let n = f.consecutive_failures in
    let told = emit (reconnect_attempted n) (maybe_refresh s f) in
    let later = reconnect s (fall_asleep s told) in
    let stays = awake_asleep s told awake in
    if-holds (IsAttempt p f) (leb p.max_attempts n) (unavailable, emit (reconnect_exhausted n) f)
      (continuing, later)
      (λ over.
        unfold emit in
        record { progress = rw over refl; failures = refl; attempts = refl; running = refl })
      (λ under.
        unfold reconnect emit maybe_refresh in
        record {
          progress = rw under refl;
          failures = ap (λ g. g.consecutive_failures) stays;
          attempts = ap (λ g. g.health.failed_attempts) stays;
          running = ap (λ g. g.stopped) stays;
        })

-- What a turn for a silent connection does to a feed.
record FailsOnce (p : ReconnectPolicy) (f : ReconnectingFeed) (r : Progress × ReconnectingFeed)
    : Type 0 where
  progress :
      r.0 ≡ (if leb p.max_attempts (f.consecutive_failures + 1) then unavailable else continuing)
  failures : r.1.consecutive_failures ≡ f.consecutive_failures + 1
  attempts : r.1.health.failed_attempts ≡ f.health.failed_attempts + 1
  running : r.1.stopped ≡ false

turn-FailsOnce :
    (p : ReconnectPolicy) (s : Session) (f : ReconnectingFeed)
    → IsSilent s
    → f.stopped ≡ false
    → FailsOnce p f (turn p s f)
unfolding after_failure
turn-FailsOnce p s f h running =
    let a = retry-IsAttempt p s (after_failure s f) h.awake in
    rw (silent_turn p s f h running) (record {
      progress = a.progress;
      failures = a.failures;
      attempts = a.attempts;
      running = a.running ∙ running;
    })

ends_unavailable :
    (now rest : Progress × ReconnectingFeed) → now.0 ≡ unavailable → continue_with now rest ≡ now
unfolding continue_with
ends_unavailable (unavailable, f) rest h = refl
ends_unavailable (continuing, f) rest h = absurd (ground (arith, h))
ends_unavailable (finished, f) rest h = refl

goes_on :
    (now rest : Progress × ReconnectingFeed) → now.0 ≡ continuing → continue_with now rest ≡ rest
unfolding continue_with
goes_on (continuing, f) rest h = refl
goes_on (unavailable, f) rest h = absurd (ground (arith, h))
goes_on (finished, f) rest h = absurd (ground (arith, h))

-- A feed that is not stopped and whose connections fail without a tick: when the failures in a row
-- come to the limit of the policy, it gives up and raises, whatever would follow.
pub run_gives_up :
    (p : ReconnectPolicy) (ss more : List Session) (f : ReconnectingFeed)
    → All IsSilent ss
    → f.stopped ≡ false
    → 0 < length ss
    → f.consecutive_failures + length ss ≡ p.max_attempts
    → let (progress, g) = run p (ss ++ more) f in
      (progress ≡ unavailable) × (g.health.failed_attempts ≡ f.health.failed_attempts + length ss)
unfolding run
run_gives_up p [] more f silent running some_left total = absurd (ground (arith, some_left))
run_gives_up p (s ∷ []) more f (h, silent) running some_left total =
    let now = turn p s f in
    let t = turn-FailsOnce p s f h running in
    let over : leb p.max_attempts (f.consecutive_failures + 1) ≡ true = ground (arith, total) in
    let last : now.0 ≡ unavailable = t.progress ∙ rw over refl in
    rw (ends_unavailable now (run p more now.1) last) (last, t.attempts)
run_gives_up p (s ∷ r ∷ ss) more f (h, silent) running some_left total =
    let now = turn p s f in
    let t = turn-FailsOnce p s f h running in
    let under : leb p.max_attempts (f.consecutive_failures + 1) ≡ false = ground (arith, total) in
    let more_to_come : now.0 ≡ continuing = t.progress ∙ rw under refl in
    let later =
      run_gives_up p (r ∷ ss) more now.1 silent t.running (omega arith)
        (omega (arith, t.failures, total)) in
    rw (goes_on now (run p (r ∷ ss ++ more) now.1) more_to_come)
      (later.0, omega (arith, later.1, t.attempts))
