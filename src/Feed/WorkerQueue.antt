-- ===== src/Feed/WorkerQueue.antt =====
-- class BoundedWorkerQueue of common/feed/queues.py. The queue of the standard library is a list of
-- at most `max_depth` items, oldest first. A consumer may take items while `publish` runs: `first`
-- of them between the put that fails and the drop, `second` of them between the drop and the second
-- put. Nobody else puts items.
pub mod Delivery
use algo_trading.Common.{
  ℕ, zero, suc, ◌+◌, ◌/◌, min, max, Bool, true, false, Option, none, some, List, [], ◌∷◌, ◌++◌,
  length, ltb, leb, ◌==◌, if◌then◌else◌,
}
use algo_trading.Common.Int.{ℤ, pos, pos_part, leb_ℤ}
use algo_trading.Models.{Result, ok, err, value_error}

-- `DROP_NOTICE_EVERY`
abbrev drop_notice_every : ℕ
drop_notice_every = 8

unfoldable pub drop_notice_cadence : ℕ → ℕ
drop_notice_cadence max_depth = max 1 (min drop_notice_every (max_depth / 2))

module _ {ℓ} (A : Type ℓ) where
  pub record WorkerQueue : Type ℓ where
    pub max_depth : ℕ
    pub items : List A
    pub published : ℕ
    pub dropped : ℕ
    pub last_published_at : Option ℕ

module _ {ℓ} {A : Type ℓ} where
  -- `__post_init__`
  unfoldable pub new_queue : ℤ → Result (WorkerQueue A)
  new_queue max_depth =
      if leb_ℤ max_depth (pos 0)
      then err value_error
      else ok (record {
        max_depth = pos_part max_depth;
        items = [];
        published = 0;
        dropped = 0;
        last_published_at = none;
      })

  -- `put_nowait`: false is `queue.Full`.
  unfoldable pub put_nowait : WorkerQueue A → A → Bool × WorkerQueue A
  put_nowait q item =
      if ltb (length q.items) q.max_depth
      then (true, record q { items = q.items ++ item ∷ [] })
      else (false, q)

  -- What a consumer takes of the oldest items, and what it leaves.
  unfoldable pub taken : ℕ → List A → List A
  taken zero xs = []
  taken (suc n) [] = []
  taken (suc n) (x ∷ xs) = x ∷ taken n xs

  unfoldable pub left : ℕ → List A → List A
  left zero xs = xs
  left (suc n) [] = []
  left (suc n) (x ∷ xs) = left n xs

  unfoldable pub consume : ℕ → WorkerQueue A → WorkerQueue A
  unfolding left
  consume n q = record q { items = left n q.items }

  -- `_drop_oldest` on the items: an empty queue has nothing to drop.
  drop_from : List A → WorkerQueue A → WorkerQueue A
  drop_from [] q = q
  drop_from (x ∷ xs) q = record q { items = xs; dropped = q.dropped + 1 }

  unfoldable pub drop_oldest : WorkerQueue A → WorkerQueue A
  unfolding drop_from
  drop_oldest q = drop_from q.items q

  -- The accounting of `publish` after its last put.
  stamp : Bool → ℕ → Bool × WorkerQueue A → Bool × WorkerQueue A
  stamp answer now (true, q) =
      (answer, record q { published = q.published + 1; last_published_at = some now })
  stamp answer now (false, q) = (false, record q { dropped = q.dropped + 1 })

  retry : ℕ → ℕ → ℕ → A → Bool × WorkerQueue A → Bool × WorkerQueue A
  unfolding stamp
  retry first second now item (true, q) = stamp true now (true, q)
  retry first second now item (false, q) =
      stamp false now (put_nowait (consume second (drop_oldest (consume first q))) item)

  unfoldable pub publish : ℕ → ℕ → ℕ → WorkerQueue A → A → Bool × WorkerQueue A
  unfolding retry
  publish first second now q item = retry first second now item (put_nowait q item)

  -- `get` without waiting: the oldest item, if there is one.
  get_from : List A → WorkerQueue A → Option A × WorkerQueue A
  get_from [] q = (none, q)
  get_from (x ∷ xs) q = (some x, record q { items = xs })

  unfoldable pub get : WorkerQueue A → Option A × WorkerQueue A
  unfolding get_from
  get q = get_from q.items q

  unfoldable pub depth : WorkerQueue A → ℕ
  depth q = length q.items

  -- `QueueStats.is_overflowing`
  unfoldable pub is_overflowing : WorkerQueue A → Bool
  is_overflowing q = ltb 0 q.dropped
