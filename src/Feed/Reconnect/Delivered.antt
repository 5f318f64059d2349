-- ===== src/Feed/Reconnect/Delivered.antt =====
-- The ticks that the feed hands on.
use mathlib.Core.List.{append_assoc, append-nil}
use algo_trading.Common.{
  ℕ, ◌≡◌, refl, sym, ap, ◌∙◌, Bool-cases, true, false, List, [], ◌∷◌, ◌++◌, leb, if◌then◌else◌,
  if-holds, inl, inr,
}
use algo_trading.Models.{Tick}
use algo_trading.Feed.Reconnect.{
  ReconnectPolicy, ReconnectingFeed, Beat, ticked, stop_called, request_stop_called, Session,
  Ending, returned, raised, Progress, continuing, finished, unavailable, emit, mark_connected,
  close_owned, recover, note_tick, hand_on, close_if_stopped, observe, stop, request_stop, beat,
  beats, mark_disconnected, maybe_refresh, reconnect, reconnect_attempted, reconnect_exhausted,
  count_failure, fall_asleep, retry, disconnected, failed_in, ended, turn, continue_with, run,
}
use algo_trading.Feed.Reconnect.Ticks.{ticks_of}

-- The ticks of connections, in their order.
abbrev pub all_ticks : List Session → List Tick
all_ticks [] = []
all_ticks (s ∷ ss) = ticks_of s.beats ++ all_ticks ss

recover-delivered :
    (security_id : ℕ) (f : ReconnectingFeed) → (recover security_id f).delivered ≡ f.delivered
unfolding recover
recover-delivered security_id f =
    if-holds (λ g. g.delivered ≡ f.delivered) f.health.degraded _ f (λ _. unfold emit in refl)
      (λ _. refl)

closed-delivered : (f : ReconnectingFeed) → (close_if_stopped f).delivered ≡ f.delivered
unfolding close_if_stopped
closed-delivered f =
    if-holds (λ g. g.delivered ≡ f.delivered) f.stopped (close_owned f) f
      (λ _.
        unfold close_owned in
        if-holds (λ g. g.delivered ≡ f.delivered) f.closed f _ (λ _. refl) (λ _. refl))
      (λ _. refl)

observe-delivered :
    (t : Tick) (f : ReconnectingFeed) → (observe t f).delivered ≡ f.delivered ++ t ∷ []
unfolding observe
observe-delivered t f =
    let told = recover t.security_id (note_tick t f) in
    closed-delivered (hand_on t told)
    ∙ (unfold hand_on note_tick in
        ap (λ l. l ++ t ∷ []) (recover-delivered t.security_id (note_tick t f)))

beats-delivered :
    (bs : List Beat) (f : ReconnectingFeed) → (beats bs f).delivered ≡ f.delivered ++ ticks_of bs
unfolding beats beat
beats-delivered [] f = sym (append-nil f.delivered)
beats-delivered (ticked t ∷ bs) f =
    beats-delivered bs (observe t f)
    ∙ ap (λ l. l ++ ticks_of bs) (observe-delivered t f)
    ∙ append_assoc f.delivered (t ∷ []) (ticks_of bs)
beats-delivered (stop_called ∷ bs) f = beats-delivered bs (stop f) ∙ (unfold stop in refl)
beats-delivered (request_stop_called ∷ bs) f =
    beats-delivered bs (request_stop f) ∙ (unfold request_stop in refl)

asleep-delivered : (s : Session) (f : ReconnectingFeed) → (fall_asleep s f).delivered ≡ f.delivered
unfolding fall_asleep
asleep-delivered s f =
    if-holds (λ g. g.delivered ≡ f.delivered) s.stopped_asleep (stop f) f (λ _. unfold stop in refl)
      (λ _. refl)

retry-delivered :
    (p : ReconnectPolicy) (s : Session) (f : ReconnectingFeed)
    → (retry p s f).1.delivered ≡ f.delivered
unfolding retry
retry-delivered p s f =
    let n = f.consecutive_failures in
    let told = emit (reconnect_attempted n) (maybe_refresh s f) in
    if-holds (λ (r : Progress × ReconnectingFeed). r.1.delivered ≡ f.delivered)
      (leb p.max_attempts n) (unavailable, emit (reconnect_exhausted n) f)
      (continuing, reconnect s (fall_asleep s told)) (λ _. unfold emit in refl)
      (λ _. unfold reconnect emit maybe_refresh in asleep-delivered s told)

ended-delivered :
    (p : ReconnectPolicy) (s : Session) (f : ReconnectingFeed) (e : Ending)
    → (ended p s f e).1.delivered ≡ f.delivered
unfolding ended failed_in
ended-delivered p s f returned = unfold disconnected in refl
ended-delivered p s f raised =
    let g = mark_disconnected s (count_failure f) in
    if-holds (λ (r : Progress × ReconnectingFeed). r.1.delivered ≡ f.delivered) f.stopped
      (finished, disconnected f) (retry p s g) (λ _. unfold disconnected in refl)
      (λ _. retry-delivered p s g ∙ (unfold mark_disconnected count_failure emit in refl))

turn_stopped :
    (p : ReconnectPolicy) (s : Session) (f : ReconnectingFeed)
    → f.stopped ≡ true
    → turn p s f ≡ (finished, disconnected f)
unfolding turn
turn_stopped p s f h =
    let m = mark_connected s.connected_at f in
    ap (λ b. if b then (finished, disconnected f) else ended p s (beats s.beats m) s.ending) h

turn-delivered :
    (p : ReconnectPolicy) (s : Session) (f : ReconnectingFeed)
    → f.stopped ≡ false
    → (turn p s f).1.delivered ≡ f.delivered ++ ticks_of s.beats
unfolding turn
turn-delivered p s f h =
    let m = mark_connected s.connected_at f in
    let g = beats s.beats m in
    ap (λ b. (if b then (finished, disconnected f) else ended p s g s.ending).1.delivered) h
    ∙ ended-delivered p s g s.ending
    ∙ beats-delivered s.beats m
    ∙ (unfold mark_connected emit in refl)

if_continuing : Progress → List Session → List Session
if_continuing continuing ss = ss
if_continuing finished ss = []
if_continuing unavailable ss = []

-- The connections that a run makes: none once it is stopped, none after the one that ends it.
pub made : ReconnectPolicy → List Session → ReconnectingFeed → List Session
unfolding if_continuing
made p [] f = []
made p (s ∷ ss) f =
    let now = turn p s f in
    let rest = made p ss now.1 in if f.stopped then [] else s ∷ if_continuing now.0 rest

continued :
    (s : Session) (ss : List Session) (f : ReconnectingFeed)
    (now rest : Progress × ReconnectingFeed)
    → now.1.delivered ≡ f.delivered ++ ticks_of s.beats
    → rest.1.delivered ≡ now.1.delivered ++ all_ticks ss
    → (continue_with now rest).1.delivered
      ≡ f.delivered ++ (ticks_of s.beats ++ all_ticks (if_continuing now.0 ss))
unfolding continue_with if_continuing
continued s ss f (continuing, g) rest h hs =
    hs ∙ ap (λ l. l ++ all_ticks ss) h ∙ append_assoc f.delivered (ticks_of s.beats) (all_ticks ss)
continued s ss f (finished, g) rest h hs =
    h ∙ ap (λ l. f.delivered ++ l) (sym (append-nil (ticks_of s.beats)))
continued s ss f (unavailable, g) rest h hs =
    h ∙ ap (λ l. f.delivered ++ l) (sym (append-nil (ticks_of s.beats)))

-- Whatever the connections bring and however they end, the ticks that reach `on_tick` are those of
-- the connections that are made, each once and in order.
pub run-delivered :
    (p : ReconnectPolicy) (ss : List Session) (f : ReconnectingFeed)
    → (run p ss f).1.delivered ≡ f.delivered ++ all_ticks (made p ss f)
unfolding run made
run-delivered p [] f = sym (append-nil f.delivered)
run-delivered p (s ∷ ss) f =
    let now = turn p s f in
    let rest = run p ss now.1 in
    let later = s ∷ if_continuing now.0 (made p ss now.1) in
    elim (Bool-cases f.stopped) [
      | inl h ↦
          ap (λ (r : Progress × ReconnectingFeed). (continue_with r rest).1.delivered)
            (turn_stopped p s f h)
          ∙ (unfold continue_with disconnected in
              sym (
                ap (λ b. f.delivered ++ all_ticks (if b then [] else later)) h
                ∙ append-nil f.delivered))
      | inr h ↦
          continued s (made p ss now.1) f now rest (turn-delivered p s f h)
            (run-delivered p ss now.1)
          ∙ sym (ap (λ b. f.delivered ++ all_ticks (if b then [] else later)) h)
    ]
