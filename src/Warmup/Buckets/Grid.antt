-- ===== src/Warmup/Buckets/Grid.antt =====
-- The offsets of a session's buckets are the multiples of the interval that fit into the session.
use native.Mathlib.Nat.{mul-le-mul_right, div-add-mod', mod-lt, mul-mod_left}
use mathlib.Core.Path.{subst}
use algo_trading.Common.{
  ℕ, zero, suc, ◌+◌, ◌-◌, ◌*◌, ◌/◌, ◌%◌, ◌≤◌, ◌<◌, ◌≡◌, ◌⊎◌, refl, sym, ap, ◌∙◌, Bool, true, false,
  ◌&&◌, ◌||◌, List, arith, leb, ltb, ◌==◌, if-holds, Bool-cases, inl, inr,
}
use algo_trading.Candles.Interval.{second}
use algo_trading.Models.{ok}
use algo_trading.Engine.Session.{MarketSession, is_among}
use algo_trading.Warmup.Buckets.{
  range_from, range, first_start, offsets_between, session_bucket_offsets,
}

-- A multiple and the step fit under every greater multiple.
below : (k c i : ℕ) → k < c → k * i + i ≤ c * i
below k c i h =
    let more : k + 1 ≤ c = omega arith in
    let product : (k + 1) * i ≤ c * i = mul-le-mul_right i more in
    let spread : (k + 1) * i ≡ k * i + i = omega arith in subst (λ x. x ≤ c * i) spread product

lt_or_ge : (k c : ℕ) → (k < c) ⊎ (c ≤ k)
lt_or_ge k c = elim (Bool-cases (ltb k c)) [
  | inl less ↦ inl (ground (arith, less))
  | inr least ↦ inr (ground (arith, least))
]

at_start :
    (k c stop i : ℕ) (rest : Bool)
    → 0 < i
    → c * i < stop
    → rest ≡ (leb (c + 1) k && ltb (k * i) stop)
    → ((k * i == c * i) || rest) ≡ (leb c k && ltb (k * i) stop)
at_start k c stop i rest h room known = elim (lt_or_ge k c) [
  | inl less ↦ let under = below k c i less in ground (arith, under, known, h, less)
  | inr least ↦ elim (lt_or_ge c k) [
    | inl more ↦ let over = below c k i more in ground (arith, over, known, h, more)
    | inr most ↦
        let same : k ≡ c = omega arith in
        let equal : k * i ≡ c * i = ap (λ x. x * i) same in ground (arith, equal, known, same, room)
  ]
]

past : (k c stop i : ℕ) → stop ≤ c * i → false ≡ (leb c k && ltb (k * i) stop)
past k c stop i over = elim (lt_or_ge k c) [
  | inl less ↦ ground (arith, less)
  | inr least ↦
      let product : c * i ≤ k * i = mul-le-mul_right i least in ground (arith, product, over)
]

range_from-multiples :
    (fuel c k stop i : ℕ)
    → 0 < i
    → stop ≤ fuel + c * i
    → is_among (k * i) (range_from fuel (c * i) stop i) ≡ (leb c k && ltb (k * i) stop)
unfolding range_from is_among
range_from-multiples zero c k stop i h enough = past k c stop i (omega arith)
range_from-multiples (suc fuel) c k stop i h enough =
    let next : c * i + i ≡ (c + 1) * i = omega arith in
    let rest : is_among (k * i) (range_from fuel (c * i + i) stop i)
        ≡ (leb (c + 1) k && ltb (k * i) stop) =
      subst (λ x. is_among (k * i) (range_from fuel x stop i) ≡ (leb (c + 1) k && ltb (k * i) stop))
        (sym next) (range_from-multiples fuel (c + 1) k stop i h (omega arith)) in
    if-holds (λ (l : List ℕ). is_among (k * i) l ≡ (leb c k && ltb (k * i) stop)) (ltb (c * i) stop)
      _ _ (λ room. at_start k c stop i _ h (ground (arith, room)) rest)
      (λ full. past k c stop i (ground (arith, full)))

first_start-least : (a k i : ℕ) → 0 < i → leb ((a + i - 1) / i) k ≡ leb a (k * i)
first_start-least a k i h =
    let c = (a + i - 1) / i in
    let parts : c * i + (a + i - 1) % i ≡ a + i - 1 = div-add-mod' (a + i - 1) i in
    let small : (a + i - 1) % i < i = mod-lt (a + i - 1) h in
    elim (lt_or_ge k c) [
      | inl less ↦ let under = below k c i less in ground (arith, under, parts, small, less)
      | inr least ↦
          let over : c * i ≤ k * i = mul-le-mul_right i least in
          ground (arith, over, parts, small, least)
    ]

past_end :
    (a b i k : ℕ)
    → 0 < i
    → ltb b ((a + i - 1) / i * i + i) ≡ true
    → false ≡ (leb a (k * i) && leb (k * i + i) b)
past_end a b i k h none =
    let c = (a + i - 1) / i in
    let least : leb c k ≡ leb a (k * i) = first_start-least a k i h in
    elim (lt_or_ge k c) [
      | inl less ↦ ground (arith, less, least)
      | inr more ↦ let over : c * i ≤ k * i = mul-le-mul_right i more in ground (arith, over, none)
    ]

-- The offsets of the buckets between two ends are, of the multiples of a positive interval, those from
-- which a whole interval lies between the ends.
pub offsets_between-multiples :
    (a b i k : ℕ)
    → 0 < i
    → is_among (k * i) (offsets_between a b i) ≡ (leb a (k * i) && leb (k * i + i) b)
unfolding offsets_between range first_start is_among
offsets_between-multiples a b i k h =
    let c = (a + i - 1) / i in
    let least : leb c k ≡ leb a (k * i) = first_start-least a k i h in
    if-holds (λ (l : List ℕ). is_among (k * i) l ≡ (leb a (k * i) && leb (k * i + i) b))
      (ltb b (c * i + i)) _ _ (λ none. past_end a b i k h none)
      (λ fits.
        let enough : b - i + 1 ≤ b - i + 1 + c * i = omega arith in
        let inside : c * i + i ≤ b = ground (arith, fits) in
        let stop : ltb (k * i) (b - i + 1) ≡ leb (k * i + i) b = ground (arith, inside, h) in
        range_from-multiples (b - i + 1) c k (b - i + 1) i h enough
        ∙ ap (λ x. x && ltb (k * i) (b - i + 1)) least
        ∙ ap (λ x. leb a (k * i) && x) stop)

differs :
    (o c i : ℕ) (rest : Bool) → (o % i == 0) ≡ false → rest ≡ false → ((o == c * i) || rest) ≡ false
differs o c i rest h g = elim (Bool-cases (o == c * i)) [
  | inl hit ↦
      let same : o ≡ c * i = ground (arith, hit) in
      let even : o % i ≡ 0 = ap (λ x. x % i) same ∙ mul-mod_left c i in
      absurd (ground (arith, even, h))
  | inr other ↦ rw (other, g) refl
]

-- A number that the interval does not divide is no offset.
range_from-off :
    (fuel c o stop i : ℕ)
    → (o % i == 0) ≡ false
    → is_among o (range_from fuel (c * i) stop i) ≡ false
unfolding range_from is_among
range_from-off zero c o stop i h = refl
range_from-off (suc fuel) c o stop i h =
    let next : c * i + i ≡ (c + 1) * i = omega arith in
    let rest : is_among o (range_from fuel (c * i + i) stop i) ≡ false =
      subst (λ x. is_among o (range_from fuel x stop i) ≡ false) (sym next)
        (range_from-off fuel (c + 1) o stop i h) in
    if-holds (λ (l : List ℕ). is_among o l ≡ false) (ltb (c * i) stop) _ _
      (λ _. differs o c i _ h rest) (λ _. refl)

offsets_between-off :
    (a b i o : ℕ) → (o % i == 0) ≡ false → is_among o (offsets_between a b i) ≡ false
unfolding offsets_between range first_start is_among
offsets_between-off a b i o h =
    let c = (a + i - 1) / i in
    if-holds (λ (l : List ℕ). is_among o l ≡ false) (ltb b (c * i + i)) _ _ (λ _. refl)
      (λ _. range_from-off (b - i + 1) c o (b - i + 1) i h)

-- The offsets between two ends are the multiples of a positive interval from which a whole interval lies
-- between the ends.
offsets_between-grid :
    (a b i o : ℕ)
    → 0 < i
    → is_among o (offsets_between a b i) ≡ ((o % i == 0) && leb a o && leb (o + i) b)
offsets_between-grid a b i o h = elim (Bool-cases (o % i == 0)) [
  | inl on ↦
      let whole : o / i * i + o % i ≡ o = div-add-mod' o i in
      let same : o / i * i ≡ o = ground (arith, whole, on) in
      subst (λ x. is_among x (offsets_between a b i) ≡ (leb a x && leb (x + i) b)) same
        (offsets_between-multiples a b i (o / i) h)
      ∙ ap (λ t. t && leb a o && leb (o + i) b) (sym on)
  | inr off ↦ offsets_between-off a b i o off ∙ ap (λ t. t && leb a o && leb (o + i) b) (sym off)
]

-- For a positive number of minutes the offsets of a session's buckets are given, and they are exactly
-- the multiples of the interval that are not before the session's start and from which the interval
-- does not go past its square-off, all in whole seconds.
pub session_bucket_offsets-grid :
    (session : MarketSession) (minutes o : ℕ)
    → 0 < minutes
    → (session_bucket_offsets session minutes
        ≡ ok
            (offsets_between (session.start / second) (session.square_off / second) (minutes * 60)))
      × (is_among o
            (offsets_between (session.start / second) (session.square_off / second) (minutes * 60))
          ≡ ((o % (minutes * 60) == 0)
              && leb (session.start / second) o
              && leb (o + minutes * 60) (session.square_off / second)))
unfolding session_bucket_offsets
session_bucket_offsets-grid session minutes o h =
    let some_minutes : (minutes == 0) ≡ false = ground (arith, h) in
    (rw some_minutes refl, offsets_between-grid _ _ (minutes * 60) o (omega arith))
