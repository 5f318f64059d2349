-- ===== src/Feed/Fanout.antt =====
-- The deliveries of common/feed/hub.py: on_tick and stop of SharedFeedHub. `pace` tells what a worker
-- takes of a queue while an item is put: the attempts on a queue are numbered by what was published
-- and dropped.
pub mod Routing
pub mod Totality
mod Tests
use algo_trading.Common.{
  ℕ, ◌+◌, Bool, true, false, not, ◌||◌, Option, none, some, List, [], ◌∷◌, or_else, ltb, ◌==◌,
  if◌then◌else◌,
}
use algo_trading.Common.Dict.{Dict, lookup, insert}
use algo_trading.Models.{Tick, Candle, Error, Result, ok, err}
use algo_trading.Candles.Aggregator.{Aggregator, add, flush, Flushed}
use algo_trading.Feed.WorkerQueue.{WorkerQueue, publish, drop_notice_cadence}
use algo_trading.Feed.Hub.{
  TickItem, tick_item, tick_drop_notice, WorkerChannel, wants, Hub, apply_pending_subscriptions,
}

-- A queue of a worker: of its candles or of its ticks.
pub data QueueName : Type 0 where
  candles_of ticks_of : ℕ → QueueName

abbrev pub Pace : Type 0
Pace = QueueName → ℕ → ℕ × ℕ

module _ (pace : Pace) where
  -- A publication at a moment, with what the worker takes meanwhile.
  unfoldable pub put {ℓ} : {A : Type ℓ} → QueueName → ℕ → WorkerQueue A → A → Bool × WorkerQueue A
  put name now q item =
      let (first, second) = pace name (q.published + q.dropped) in publish first second now q item

  unfoldable pub deliver : ℕ → Candle → WorkerChannel → WorkerChannel
  unfolding wants put
  deliver now candle c =
      if wants c candle.security_id
      then record c { queue = (put (candles_of c.strategy_id) now c.queue candle).1 }
      else c

  deliver_each : ℕ → Candle → List WorkerChannel → List WorkerChannel
  unfolding deliver
  deliver_each now candle [] = []
  deliver_each now candle (c ∷ cs) = deliver now candle c ∷ deliver_each now candle cs

  -- `_fan_out`
  unfoldable pub fan_out : ℕ → Candle → Hub → Hub
  unfolding deliver_each
  fan_out now candle h = record h {
    candle_count = h.candle_count + 1;
    channels = deliver_each now candle h.channels;
  }

  -- Whether a drop is to be reported, after the last report, none of which is 0.
  unfoldable pub is_due : ℕ → ℕ → ℕ → Bool
  unfolding drop_notice_cadence
  is_due last dropped max_depth =
      (last == 0) || not (ltb dropped (last + drop_notice_cadence max_depth))

  -- `_notify_drop`: the queue and the notices.
  unfoldable pub notify_drop : ℕ → ℕ → WorkerQueue TickItem → Dict ℕ → WorkerQueue TickItem × Dict ℕ
  unfolding is_due put
  notify_drop now strategy_id q notices =
      if is_due (or_else (lookup strategy_id notices) 0) q.dropped q.max_depth
      then (
        (put (ticks_of strategy_id) now q (tick_drop_notice q.dropped)).1,
        insert strategy_id q.dropped notices,
      )
      else (q, notices)

  -- A tick for a channel's queue.
  sent : ℕ → ℕ → Bool × WorkerQueue TickItem → Dict ℕ → WorkerQueue TickItem × Dict ℕ
  unfolding notify_drop
  sent now strategy_id (true, q) notices = (q, notices)
  sent now strategy_id (false, q) notices = notify_drop now strategy_id q notices

  send_in :
      ℕ
      → Tick
      → WorkerChannel
      → Option (WorkerQueue TickItem)
      → Dict ℕ
      → (ℕ × WorkerChannel) × Dict ℕ
  unfolding sent put wants
  send_in now tick c none notices = ((0, c), notices)
  send_in now tick c (some q) notices =
      let name = ticks_of c.strategy_id in
      let (q1, notices1) = sent now c.strategy_id (put name now q (tick_item tick)) notices in
      if wants c tick.security_id
      then ((1, record c { tick_queue = some q1 }), notices1)
      else ((0, c), notices)

  -- How many queues the tick is put to, the channels, and the notices.
  unfoldable pub send_each :
      ℕ → Tick → List WorkerChannel → Dict ℕ → (ℕ × List WorkerChannel) × Dict ℕ
  unfolding send_in
  send_each now tick [] notices = ((0, []), notices)
  send_each now tick (c ∷ cs) notices =
      let ((n, c1), notices1) = send_in now tick c c.tick_queue notices in
      let ((m, cs1), notices2) = send_each now tick cs notices1 in ((n + m, c1 ∷ cs1), notices2)

  -- `_fan_out_tick`
  unfoldable pub fan_out_tick : ℕ → Tick → Hub → Hub
  unfolding send_each
  fan_out_tick now tick h =
      let ((n, cs), notices) = send_each now tick h.channels h.last_drop_notice in
      record h {
        ticks_published = h.ticks_published + n;
        channels = cs;
        last_drop_notice = notices;
      }

  unfoldable pub fan_out_if : ℕ → Option Candle → Hub → Hub
  unfolding fan_out
  fan_out_if now none h = h
  fan_out_if now (some candle) h = fan_out now candle h

  aggregated : ℕ → Tick → Hub → Result (Option Candle) × Aggregator → Result (Unit {0}) × Hub
  unfolding fan_out_if fan_out_tick
  aggregated now tick h (err e, a) =
      (err e, record h { aggregators = insert tick.security_id a h.aggregators })
  aggregated now tick h (ok completed, a) =
      let kept = record h { aggregators = insert tick.security_id a h.aggregators } in
      (ok tt, fan_out_tick now tick (fan_out_if now completed kept))

  count_tick : Tick → Hub → Hub
  count_tick tick h = record h {
    tick_count = h.tick_count + 1;
    last_tick_at = some tick.exchange_time;
  }

  unfoldable pub on_tick : ℕ → Tick → Hub → Result (Unit {0}) × Hub
  unfolding aggregated apply_pending_subscriptions count_tick
  on_tick now tick h =
      let counted = count_tick tick (apply_pending_subscriptions h) in
      aggregated now tick counted
        (add (or_else (lookup tick.security_id counted.aggregators) counted.new_aggregator) tick)

  fan_out_each : ℕ → List Candle → Hub → Hub
  unfolding fan_out
  fan_out_each now [] h = h
  fan_out_each now (c ∷ cs) h = fan_out_each now cs (fan_out now c h)

  -- The aggregators that are left to flush, after what one of them gave.
  flushed : ℕ → ℕ → Flushed → Hub → Result (Unit {0}) × Hub
  unfolding fan_out_each
  flushed now k f h =
      let given = fan_out_each now f.yielded h in
      (f.ended, record given { aggregators = insert k f.after given.aggregators })

  flush_each : ℕ → Dict Aggregator → Hub → Result (Unit {0}) × Hub
  unfolding flushed
  flush_each now [] h = (ok tt, h)
  flush_each now ((k, a) ∷ d) h =
      let (r, h1) = flushed now k (flush a (some k)) h in
      let (rest, h2) = flush_each now d h1 in elim r [ ok u ↦ (rest, h2) | err e ↦ (err e, h1) ]

  -- `stop` after the adapter's.
  unfoldable pub stop : ℕ → Hub → Result (Unit {0}) × Hub
  unfolding flush_each
  stop now h = flush_each now h.aggregators h
