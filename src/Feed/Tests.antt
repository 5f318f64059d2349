-- ===== src/Feed/Tests.antt =====
-- The theorems on the worker queue, applied to a queue of two places.
use algo_trading.Common.{ℕ, ◌≡◌, refl, false, some, [], ◌∷◌, arith}
use algo_trading.Feed.WorkerQueue.{WorkerQueue, publish}
use algo_trading.Feed.WorkerQueue.Delivery.{IsValid, Account, publish_full-Account}

abbrev one_waiting : WorkerQueue ℕ
one_waiting = record {
  max_depth = 2;
  items = 10 ∷ [];
  published = 1;
  dropped = 0;
  last_published_at = some 5;
}

abbrev two_waiting : WorkerQueue ℕ
two_waiting = record one_waiting { items = 10 ∷ 11 ∷ []; published = 2 }

one_waiting-IsValid : IsValid one_waiting
one_waiting-IsValid = record { room = omega arith; bounded = omega arith }

two_waiting-IsValid : IsValid two_waiting
two_waiting-IsValid = record { room = omega arith; bounded = omega arith }

publish_full-Account_example :
    ((publish 1 0 6 two_waiting 12).0 ≡ false)
    × Account 1 0 two_waiting 12 (publish 1 0 6 two_waiting 12)
publish_full-Account_example = publish_full-Account 1 0 6 12 two_waiting two_waiting-IsValid refl
