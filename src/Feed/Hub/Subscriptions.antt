-- ===== src/Feed/Hub/Subscriptions.antt =====
-- What a subscription request does.
use algo_trading.Common.{
  ℕ, ◌≡◌, refl, ap, ◌∙◌, Bool, true, false, ◌||◌, Option, List, [], ◌∷◌, arith, ==-refl, ◌==◌,
  if◌then◌else◌, Bool-cases, inl, inr,
}
use algo_trading.Feed.Hub.{
  SubscriptionRequest, WorkerChannel, is_in, wants, Hub, is_registered, grant, granted, apply_one,
}

-- A worker of this name wants the instrument.
unfoldable pub is_routed : ℕ → ℕ → List WorkerChannel → Bool
is_routed strategy_id security_id [] = false
is_routed strategy_id security_id (c ∷ cs) =
    let rest = is_routed strategy_id security_id cs in
    if c.strategy_id == strategy_id then wants c security_id else rest

or_true : (b : Bool) → (b || true) ≡ true
or_true true = refl
or_true false = refl

granted_wants :
    (security_id : ℕ) (c : WorkerChannel)
    → wants (record c { dynamic_ids = security_id ∷ c.dynamic_ids }) security_id ≡ true
unfolding wants is_in
granted_wants security_id c = rw (==-refl security_id) (or_true (is_in security_id c.security_ids))

registered_later : (j k : ℕ) (b : Bool) → (j == k) ≡ false → ((j == k) || b) ≡ true → b ≡ true
registered_later j k b other h = rw⁻¹ h (rw other refl)

grant-is_routed :
    (strategy_id security_id : ℕ) (cs : List WorkerChannel)
    → is_registered strategy_id cs ≡ true
    → is_routed strategy_id security_id (grant strategy_id security_id cs).1 ≡ true
unfolding grant is_routed is_registered
grant-is_routed strategy_id security_id [] h = h
grant-is_routed strategy_id security_id (c ∷ cs) h =
    let added = record c { dynamic_ids = security_id ∷ c.dynamic_ids } in
    elim (Bool-cases (c.strategy_id == strategy_id)) [
      | inl hit ↦ elim (Bool-cases (wants c security_id)) [
        | inl wanted ↦ rw (hit, wanted, hit) wanted
        | inr missing ↦ rw (hit, missing, hit) (granted_wants security_id c)
      ]
      | inr other ↦
          rw (other, other)
            (grant-is_routed strategy_id security_id cs
              (registered_later c.strategy_id strategy_id _ other h))
    ]

-- To grant what is routed changes nothing.
grant_routed :
    (strategy_id security_id : ℕ) (cs : List WorkerChannel)
    → is_routed strategy_id security_id cs ≡ true
    → grant strategy_id security_id cs ≡ (false, cs)
unfolding grant is_routed
grant_routed strategy_id security_id [] h = absurd (ground (arith, h))
grant_routed strategy_id security_id (c ∷ cs) h = elim (Bool-cases (c.strategy_id == strategy_id)) [
  | inl hit ↦ let wanted : wants c security_id ≡ true = simp hit at h in rw (hit, wanted) refl
  | inr other ↦
      let later : is_routed strategy_id security_id cs ≡ true = simp other at h in
      rw (other, grant_routed strategy_id security_id cs later) refl
]

granted-channels :
    (q : SubscriptionRequest) (h : Hub) (r : Bool × List WorkerChannel)
    → (granted q h r).channels ≡ r.1
unfolding granted
granted-channels q h (true, cs) = refl
granted-channels q h (false, cs) = refl

-- After a subscription is applied for a registered worker, the worker wants the instrument, and to
-- apply a request for the same worker and instrument, of whatever segment and mode, changes nothing
-- more: the adapter is not asked again.
pub apply_one_idem :
    (r : SubscriptionRequest) (segment mode : Option ℕ) (h : Hub)
    → is_registered r.strategy_id h.channels ≡ true
    → let after = apply_one r h in
      let again : SubscriptionRequest = record r { segment = segment; mode = mode } in
      (is_routed r.strategy_id r.security_id after.channels ≡ true)
      × (apply_one again after ≡ after)
unfolding apply_one
apply_one_idem q segment mode h registered =
    let r = grant q.strategy_id q.security_id h.channels in
    let g = granted q h r in
    let again : SubscriptionRequest = record q { segment = segment; mode = mode } in
    let routed : is_routed q.strategy_id q.security_id g.channels ≡ true =
      ap (is_routed q.strategy_id q.security_id) (granted-channels q h r)
      ∙ grant-is_routed q.strategy_id q.security_id h.channels registered in
    (
      routed,
      ap (granted again g) (grant_routed q.strategy_id q.security_id g.channels routed)
          ∙ (unfold granted in refl),
    )
