-- ===== src/Feed/Hub.antt =====
-- class SharedFeedHub of common/feed/hub.py over the aggregators and the queues. The adapter's
-- subscriptions are kept as a list of what it was asked for, with the segment and the mode, none for
-- its defaults; a subscription is taken not to raise. `new_aggregator` is the aggregator of
-- an instrument before its first tick.
pub mod Subscriptions
use algo_trading.Common.{
  ℕ, ◌+◌, ◌-◌, Bool, true, false, not, ◌&&◌, ◌||◌, Option, none, some, List, [], ◌∷◌, ◌++◌, is_some,
  or_else, map, ltb, ◌==◌, if◌then◌else◌,
}
use algo_trading.Common.Dict.{Dict, lookup, insert}
use algo_trading.Models.{Tick, Candle, Error, Result, ok, err, value_error, runtime_error}
use algo_trading.Candles.Aggregator.{Aggregator, mark_feed_gap}
use algo_trading.Feed.WorkerQueue.{WorkerQueue}

-- What goes down a tick queue.
pub data TickItem : Type 0 where
  tick_item : Tick → TickItem
  tick_drop_notice : ℕ → TickItem

pub record WorkerChannel : Type 0 where
  pub strategy_id : ℕ
  pub security_ids : List ℕ
  pub queue : WorkerQueue Candle
  pub tick_queue : Option (WorkerQueue TickItem)
  pub dynamic_ids : List ℕ

unfoldable pub is_in : ℕ → List ℕ → Bool
is_in k [] = false
is_in k (j ∷ js) = (k == j) || is_in k js

unfoldable pub wants : WorkerChannel → ℕ → Bool
unfolding is_in
wants c security_id = is_in security_id c.security_ids || is_in security_id c.dynamic_ids

-- An instrument that a worker asks for, with the segment and the mode of its subscription.
pub record SubscriptionRequest : Type 0 where
  pub strategy_id : ℕ
  pub security_id : ℕ
  pub segment : Option ℕ
  pub mode : Option ℕ

pub record Hub : Type 0 where
  pub new_aggregator : Aggregator
  pub channels : List WorkerChannel
  pub aggregators : Dict Aggregator
  pub pending : List SubscriptionRequest
  pub last_drop_notice : Dict ℕ
  pub subscribed : List (ℕ × Option ℕ × Option ℕ)
  pub tick_count : ℕ
  pub candle_count : ℕ
  pub ticks_published : ℕ
  pub gap_candles_discarded : ℕ
  pub subscriptions_applied : ℕ
  pub last_tick_at : Option ℕ

unfoldable pub is_registered : ℕ → List WorkerChannel → Bool
is_registered strategy_id [] = false
is_registered strategy_id (c ∷ cs) = (c.strategy_id == strategy_id) || is_registered strategy_id cs

unfoldable pub register : WorkerChannel → Hub → Result (Unit {0}) × Hub
unfolding is_registered
register c h =
    if is_registered c.strategy_id h.channels
    then (err value_error, h)
    else (ok tt, record h { channels = h.channels ++ c ∷ [] })

unfoldable pub request_subscription : SubscriptionRequest → Hub → Hub
request_subscription r h = record h { pending = h.pending ++ r ∷ [] }

-- The first channel of the worker, where it does not want the instrument yet, gets it: whether the
-- adapter is asked, and the channels.
unfoldable pub grant : ℕ → ℕ → List WorkerChannel → Bool × List WorkerChannel
unfolding wants
grant strategy_id security_id [] = (false, [])
grant strategy_id security_id (c ∷ cs) =
    let (asked, rest) = grant strategy_id security_id cs in
    if c.strategy_id == strategy_id
    then if wants c security_id
      then (false, c ∷ cs)
      else (true, record c { dynamic_ids = security_id ∷ c.dynamic_ids } ∷ cs)
    else (asked, c ∷ rest)

unfoldable pub granted : SubscriptionRequest → Hub → Bool × List WorkerChannel → Hub
granted r h (false, cs) = record h { channels = cs }
granted r h (true, cs) = record h {
  channels = cs;
  subscribed = h.subscribed ++ (r.security_id, r.segment, r.mode) ∷ [];
  subscriptions_applied = h.subscriptions_applied + 1;
}

unfoldable pub apply_one : SubscriptionRequest → Hub → Hub
unfolding granted grant
apply_one r h = granted r h (grant r.strategy_id r.security_id h.channels)

unfoldable pub apply_each : List SubscriptionRequest → Hub → Hub
unfolding apply_one
apply_each [] h = h
apply_each (r ∷ rs) h = apply_each rs (apply_one r h)

unfoldable pub apply_pending_subscriptions : Hub → Hub
unfolding apply_each
apply_pending_subscriptions h = apply_each h.pending (record h { pending = [] })

without : ℕ → List ℕ → List ℕ
without k [] = []
without k (j ∷ js) = let rest = without k js in if k == j then rest else j ∷ rest

unfoldable pub drop_in : ℕ → ℕ → List WorkerChannel → List WorkerChannel
unfolding without
drop_in strategy_id security_id [] = []
drop_in strategy_id security_id (c ∷ cs) =
    let rest = drop_in strategy_id security_id cs in
    if c.strategy_id == strategy_id
    then record c { dynamic_ids = without security_id c.dynamic_ids } ∷ cs
    else c ∷ rest

unfoldable pub drop_subscription : ℕ → ℕ → Hub → Hub
unfolding drop_in
drop_subscription strategy_id security_id h = record h {
  channels = drop_in strategy_id security_id h.channels;
}

-- `mark_feed_gap`: the number of bars that it marks.
gap_each : Dict Aggregator → ℕ × Dict Aggregator
gap_each [] = (0, [])
gap_each ((k, a) ∷ d) =
    let (n, a1) = mark_feed_gap a (some k) in let (m, d1) = gap_each d in (n + m, (k, a1) ∷ d1)

unfoldable pub mark_gap : Hub → ℕ × Hub
unfolding gap_each
mark_gap h =
    let (n, d) = gap_each h.aggregators in
    (n, record h { aggregators = d; gap_candles_discarded = h.gap_candles_discarded + n })

-- The instruments of all workers, each once.
union_with : List ℕ → List ℕ → List ℕ
unfolding is_in
union_with [] known = known
union_with (k ∷ ks) known =
    let more = union_with ks known in if is_in k more then more else k ∷ more

unfoldable pub subscription_union : List WorkerChannel → List ℕ
unfolding union_with
subscription_union [] = []
subscription_union (c ∷ cs) = union_with c.security_ids (subscription_union cs)

subscribing : List ℕ → Hub → Result (Unit {0}) × Hub
unfolding apply_pending_subscriptions
subscribing [] h = (err runtime_error, h)
subscribing (k ∷ ks) h = (
  ok tt,
  apply_pending_subscriptions
      (record h { subscribed = h.subscribed ++ map (λ j. (j, none, none)) (k ∷ ks) }),
)

-- `start` up to the adapter's loop; the adapter is asked in the order of the identifiers, which is
-- not kept here.
unfoldable pub start : Hub → Result (Unit {0}) × Hub
unfolding subscribing subscription_union
start h = subscribing (subscription_union h.channels) h
