-- ===== src/Feed/WorkerQueue/Delivery.antt =====
-- What `publish` delivers, loses and counts.
use mathlib.Core.List.{append_assoc}
use algo_trading.Common.{
  ℕ, zero, suc, ◌+◌, ◌≤◌, ◌<◌, ◌≡◌, refl, sym, ap, ◌∙◌, inl, inr, Bool, true, false, List, [], ◌∷◌,
  ◌++◌, arith, length, some, length-append, ltb, Bool-cases,
}
use algo_trading.Feed.WorkerQueue.{
  WorkerQueue, put_nowait, taken, left, consume, drop_oldest, drop_from, publish,
}

module _ {ℓ} {A : Type ℓ} where
  -- The queue holds no more than it may, and may hold an item.
  pub record IsValid (q : WorkerQueue A) : Type 0 where
    pub room : 0 < q.max_depth
    pub bounded : length q.items ≤ q.max_depth

  taken-left : (n : ℕ) (xs : List A) → taken n xs ++ left n xs ≡ xs
  unfolding taken left
  taken-left zero xs = refl
  taken-left (suc n) [] = refl
  taken-left (suc n) (x ∷ xs) = ap (◌∷◌ x) (taken-left n xs)

  length-left : (n : ℕ) (xs : List A) → length (left n xs) ≤ length xs
  unfolding left
  length-left zero xs = omega arith
  length-left (suc n) [] = omega arith
  length-left (suc n) (x ∷ xs) = omega (arith, length-left n xs)

  -- The account of one call, where a consumer takes so many items before the drop and so many after
  -- it: of those it leaves at first the oldest is lost, and what waits then and the new one are, in
  -- order, what the consumer took, the one that is lost, what it took afterwards, and what waits now.
  pub record Account (first second : ℕ) (q : WorkerQueue A) (item : A) (r : Bool × WorkerQueue A)
      : Type ℓ where
    pub waiting : r.1.items ≡ left second (left 1 (left first q.items)) ++ item ∷ []
    pub conserved :
        q.items ++ item ∷ []
        ≡ taken first q.items
          ++ (taken 1 (left first q.items)
              ++ (taken second (left 1 (left first q.items)) ++ r.1.items))
    pub counted : r.1.dropped ≡ q.dropped + length (taken 1 (left first q.items))
    pub one_published : r.1.published ≡ q.published + 1
    pub bounded : length r.1.items ≤ r.1.max_depth

  drop_from_shorter :
      (xs : List A) (q : WorkerQueue A) (n : ℕ)
      → 0 < n
      → length xs ≤ n
      → length q.items ≤ length xs
      → length (drop_from xs q).items < n
  unfolding drop_from
  drop_from_shorter [] q n r b e = omega arith
  drop_from_shorter (x ∷ xs) q n r b e = omega arith

  drop_from-max_depth : (xs : List A) (q : WorkerQueue A) → (drop_from xs q).max_depth ≡ q.max_depth
  unfolding drop_from
  drop_from-max_depth [] q = refl
  drop_from-max_depth (x ∷ xs) q = refl

  drop_from-published : (xs : List A) (q : WorkerQueue A) → (drop_from xs q).published ≡ q.published
  unfolding drop_from
  drop_from-published [] q = refl
  drop_from-published (x ∷ xs) q = refl

  drop_from-dropped :
      (xs : List A) (q : WorkerQueue A) → (drop_from xs q).dropped ≡ q.dropped + length (taken 1 xs)
  unfolding drop_from taken left
  drop_from-dropped [] q = omega arith
  drop_from-dropped (x ∷ xs) q = omega arith

  -- What a drop leaves.
  drop_from-items :
      (xs : List A) (q : WorkerQueue A) → q.items ≡ xs → (drop_from xs q).items ≡ left 1 xs
  unfolding drop_from left
  drop_from-items [] q e = e
  drop_from-items (x ∷ xs) q e = refl

  regroup :
      (q ps bs cs ds xs ys is : List A)
      → ps ++ xs ≡ q
      → bs ++ ys ≡ xs
      → cs ++ ds ≡ ys
      → q ++ is ≡ ps ++ (bs ++ (cs ++ (ds ++ is)))
  regroup q ps bs cs ds xs ys is a b c = rw (← a, ← b, ← c) (simp append_assoc)

  put_room :
      (q : WorkerQueue A) (item : A)
      → length q.items < q.max_depth
      → put_nowait q item ≡ (true, record q { items = q.items ++ item ∷ [] })
  unfolding put_nowait
  put_room q item h = ground arith

  put_full :
      (q : WorkerQueue A) (item : A) → length q.items ≡ q.max_depth → put_nowait q item ≡ (false, q)
  unfolding put_nowait
  put_full q item h = ground arith

  module _ (first second now : ℕ) (item : A) (q : WorkerQueue A) (v : IsValid q) where
    -- A valid queue that is not full takes the item, answers true and loses nothing.
    pub publish_room :
        length q.items < q.max_depth
        → publish first second now q item ≡ (
          true,
          record q {
            items = q.items ++ item ∷ [];
            published = q.published + 1;
            last_published_at = some now;
          },
        )
    unfolding publish
    publish_room h = rw (put_room q item h)

    abbrev kept : List A
    kept = left second (drop_oldest (consume first q)).items

    kept_shorter : length kept < q.max_depth
    unfolding drop_oldest consume
    kept_shorter = omega (
      arith,
      length-left second (drop_from (left first q.items) (consume first q)).items,
      drop_from_shorter (left first q.items) (consume first q) q.max_depth v.room
          (omega (arith, length-left first q.items, v.bounded)) (omega arith),
    )

    publish_full :
        length q.items ≡ q.max_depth
        → publish first second now q item ≡ (
          false,
          record (consume second (drop_oldest (consume first q))) {
            items = kept ++ item ∷ [];
            published = q.published + 1;
            last_published_at = some now;
          },
        )
    unfolding publish consume drop_oldest
    publish_full h =
        let xs = left first q.items in
        let rest : WorkerQueue A = consume second (drop_oldest (consume first q)) in
        rw (
          put_full q item h,
          put_room rest item (rw (drop_from-max_depth xs (consume first q)) kept_shorter),
          drop_from-published xs (consume first q),
        )

    -- A valid queue that is full answers false. The oldest item that the consumer has left is lost and
    -- counted as dropped, none if it has left none; the items that waited and then the new one are, in
    -- this order, those that the consumer took, the one that is lost, those taken after it, and those
    -- that wait now; one more item is published, and the queue holds no more than it may.
    pub publish_full-Account :
        length q.items ≡ q.max_depth
        → ((publish first second now q item).0 ≡ false)
          × Account first second q item (publish first second now q item)
    unfolding consume drop_oldest
    publish_full-Account h =
        let xs = left first q.items in
        let dropped = drop_from-items xs (consume first q) refl in
        let waits : kept ++ item ∷ [] ≡ left second (left 1 xs) ++ item ∷ [] =
          ap (λ l. left second l ++ item ∷ []) dropped in
        rw (publish_full h) (
          refl,
          record {
            waiting = waits;
            conserved =
                regroup q.items (taken first q.items) (taken 1 xs) (taken second (left 1 xs))
                  (left second (left 1 xs)) xs (left 1 xs) (item ∷ []) (taken-left first q.items)
                  (taken-left 1 xs) (taken-left second (left 1 xs))
                ∙ ap (λ l. taken first q.items ++ (taken 1 xs ++ (taken second (left 1 xs) ++ l)))
                    (sym waits);
            counted = drop_from-dropped xs (consume first q);
            one_published = refl;
            bounded = omega (
              arith,
              length-append kept (item ∷ []),
              kept_shorter,
              drop_from-max_depth xs (consume first q),
            );
          },
        )

    -- A valid queue is valid after a call, whatever the consumer takes meanwhile.
    pub publish-IsValid : IsValid (publish first second now q item).1
    unfolding consume drop_oldest
    publish-IsValid = elim (Bool-cases (ltb (length q.items) q.max_depth)) [
      | inl room ↦
          let h : length q.items < q.max_depth = ground arith in
          rw (publish_room h)
            (record { room = v.room; bounded = omega (arith, length-append q.items (item ∷ [])) })
      | inr full ↦
          let h : length q.items ≡ q.max_depth = ground (arith, v.bounded) in
          record {
            room =
                rw (publish_full h, drop_from-max_depth (left first q.items) (consume first q))
                  v.room;
            bounded = (publish_full-Account h).1.bounded;
          }
    ]
