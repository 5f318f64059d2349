-- ===== src/Feed/Fanout/Routing.antt =====
-- Where candles and ticks go.
use algo_trading.Common.{
  or_else, ℕ, ◌≡◌, ◌⊎◌, refl, Bool, true, false, Option, none, some, List, [], ◌∷◌, if-holds, inl,
  inr, Bool-cases,
}
use algo_trading.Common.Dict.{Dict, lookup}
use algo_trading.Models.{Tick}
use algo_trading.Feed.WorkerQueue.{WorkerQueue}
use algo_trading.Feed.Hub.{TickItem, tick_item, tick_drop_notice, WorkerChannel, wants, Hub}
use algo_trading.Feed.Fanout.{
  Pace, QueueName, ticks_of, put, notify_drop, is_due, sent, send_in, send_each, fan_out_tick,
}

module _ (pace : Pace) (now : ℕ) (tick : Tick) where
  -- The tick queue of a worker that wants the tick: the tick was put, and after a drop perhaps a
  -- notice of the drops.
  unfoldable pub Reached : QueueName → WorkerQueue TickItem → WorkerQueue TickItem → Type 0
  Reached name q q1 =
      (answer : Bool) × (q0 : WorkerQueue TickItem) × (put pace name now q (tick_item tick)
        ≡ (answer, q0))
      × ((q1 ≡ q0)
          ⊎ ((answer ≡ false) × (q1 ≡ (put pace name now q0 (tick_drop_notice q0.dropped)).1)))

  -- A channel that does not want the tick, or has no tick queue, is as it was. In another only the
  -- tick queue changes, and it is reached.
  unfoldable pub IsRouted : WorkerChannel → WorkerChannel → Type 0
  IsRouted c c1 =
      (((wants c tick.security_id ≡ false) ⊎ (c.tick_queue ≡ none)) × (c1 ≡ c))
      ⊎ ((q : WorkerQueue TickItem) × (q1 : WorkerQueue TickItem) × (c.tick_queue ≡ some q)
          × (wants c tick.security_id ≡ true)
          × (c1 ≡ record c { tick_queue = some q1 })
          × Reached (ticks_of c.strategy_id) q q1)

  pub AllRouted : List WorkerChannel → List WorkerChannel → Type 0
  AllRouted [] [] = Unit
  AllRouted (c ∷ cs) (d ∷ ds) = IsRouted c d × AllRouted cs ds
  AllRouted _ _ = ⊥

  sent-Reached :
      (name : ℕ) (q : WorkerQueue TickItem) (r : Bool × WorkerQueue TickItem) (notices : Dict ℕ)
      → put pace (ticks_of name) now q (tick_item tick) ≡ r
      → Reached (ticks_of name) q (sent pace now name r notices).0
  unfolding Reached sent notify_drop
  sent-Reached name q (true, q0) notices made = (true, q0, made, inl refl)
  sent-Reached name q (false, q0) notices made =
      let due = is_due pace (or_else (lookup name notices) 0) q0.dropped q0.max_depth in
      (
        false,
        q0,
        made,
        if-holds
            (λ (p : WorkerQueue TickItem × Dict ℕ).
              (p.0 ≡ q0)
              ⊎ ((false ≡ false)
                  × (p.0 ≡ (put pace (ticks_of name) now q0 (tick_drop_notice q0.dropped)).1)))
            due _ _ (λ _. inr (refl, refl)) (λ _. inl refl),
      )

  send_in-IsRouted :
      (c : WorkerChannel) (o : Option (WorkerQueue TickItem)) (notices : Dict ℕ)
      → c.tick_queue ≡ o
      → IsRouted c (send_in pace now tick c o notices).0.1
  unfolding send_in IsRouted
  send_in-IsRouted c none notices same = inl (inr same, refl)
  send_in-IsRouted c (some q) notices same =
      let name = ticks_of c.strategy_id in
      let out = sent pace now c.strategy_id (put pace name now q (tick_item tick)) notices in
      let reached =
        sent-Reached c.strategy_id q (put pace name now q (tick_item tick)) notices refl in
      elim (Bool-cases (wants c tick.security_id)) [
        | inl wanted ↦ rw wanted (inr (q, out.0, same, refl, refl, reached))
        | inr other ↦ rw other (inl (inl refl, refl))
      ]

  send_each-AllRouted :
      (cs : List WorkerChannel) (notices : Dict ℕ)
      → AllRouted cs (send_each pace now tick cs notices).0.1
  unfolding send_each AllRouted
  send_each-AllRouted [] notices = tt
  send_each-AllRouted (c ∷ cs) notices =
      let first = send_in pace now tick c c.tick_queue notices in
      (send_in-IsRouted c c.tick_queue notices refl, send_each-AllRouted cs first.1)

  -- A tick goes to the tick queues of the workers that want its instrument, and to no others: each
  -- of those queues was given the tick, and after a drop perhaps a notice of the drops; all else of
  -- the channels is as it was, whichever queues overflow.
  pub fan_out_tick-AllRouted :
      (h : Hub) → AllRouted h.channels (fan_out_tick pace now tick h).channels
  unfolding fan_out_tick
  fan_out_tick-AllRouted h = send_each-AllRouted h.channels h.last_drop_notice
