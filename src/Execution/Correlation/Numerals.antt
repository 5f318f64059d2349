-- ===== src/Execution/Correlation/Numerals.antt =====
-- The digits of a sequence number.
use algo_trading.Common.{
  ℕ, zero, suc, ◌+◌, ◌-◌, ◌*◌, ◌/◌, ◌%◌, ◌<◌, ◌≡◌, refl, ap, ◌∙◌, Bool, true, false, ◌&&◌, [], ◌∷◌,
  ◌++◌, length, length-append, arith, leb, ltb, if-holds,
}
use algo_trading.Execution.Correlation.{
  Text, all_of, is_digit, value_of, digits, zeros, four_digits, is_sequence,
}

pub and_parts : (a b : Bool) → (a && b) ≡ true → (a ≡ true) × (b ≡ true)
and_parts true b h = (refl, h)
and_parts false b h = absurd (ground (arith, h))

pub and_true : (a b : Bool) → a ≡ true → b ≡ true → (a && b) ≡ true
and_true true b h g = g
and_true false b h g = absurd (ground (arith, h))

pub all_of-append :
    (p : ℕ → Bool) (xs ys : Text)
    → all_of p xs ≡ true
    → all_of p ys ≡ true
    → all_of p (xs ++ ys) ≡ true
unfolding all_of
all_of-append p [] ys h g = g
all_of-append p (x ∷ xs) ys h g =
    let parts = and_parts (p x) (all_of p xs) h in
    and_true (p x) (all_of p (xs ++ ys)) parts.0 (all_of-append p xs ys parts.1 g)

value_of-append :
    (n : ℕ) (xs : Text) (c : ℕ) → value_of n (xs ++ c ∷ []) ≡ value_of n xs * 10 + (c - 48)
unfolding value_of
value_of-append n [] c = refl
value_of-append n (x ∷ xs) c = value_of-append (n * 10 + (x - 48)) xs c

value_of-digits : (fuel n : ℕ) → n < fuel → value_of 0 (digits fuel n) ≡ n
unfolding digits
value_of-digits zero n h = absurd (ground (arith, h))
value_of-digits (suc fuel) n h =
    let more = digits fuel (n / 10) in
    if-holds (λ cs. value_of 0 cs ≡ n) (ltb n 10) ((48 + n) ∷ []) (more ++ (48 + n % 10) ∷ [])
      (λ small. unfold value_of in omega arith)
      (λ large.
        let shorter : n / 10 < fuel = ground (arith, large, h) in
        value_of-append 0 more (48 + n % 10) ∙ omega (arith, value_of-digits fuel (n / 10) shorter))

is_digit_of : (n : ℕ) → n < 10 → is_digit (48 + n) ≡ true
unfolding is_digit
is_digit_of n h = ground (arith, h)

digits-all_of : (fuel n : ℕ) → all_of is_digit (digits fuel n) ≡ true
unfolding digits
digits-all_of zero n = unfold all_of in refl
digits-all_of (suc fuel) n =
    let more = digits fuel (n / 10) in
    if-holds (λ cs. all_of is_digit cs ≡ true) (ltb n 10) ((48 + n) ∷ [])
      (more ++ (48 + n % 10) ∷ [])
      (λ small.
        unfold all_of in
        and_true (is_digit (48 + n)) true (is_digit_of n (ground (arith, small))) refl)
      (λ _. all_of-append is_digit more ((48 + n % 10) ∷ []) (digits-all_of fuel (n / 10)) (
        unfold all_of in
        and_true (is_digit (48 + n % 10)) true (is_digit_of (n % 10) (omega arith)) refl))

value_of-zeros : (n : ℕ) (cs : Text) → value_of 0 (zeros n ++ cs) ≡ value_of 0 cs
unfolding zeros value_of
value_of-zeros zero cs = refl
value_of-zeros (suc n) cs = value_of-zeros n cs

zeros-all_of : (n : ℕ) → all_of is_digit (zeros n) ≡ true
unfolding zeros all_of is_digit
zeros-all_of zero = refl
zeros-all_of (suc n) = zeros-all_of n

zeros-length : (n : ℕ) → length (zeros n) ≡ n
unfolding zeros
zeros-length zero = refl
zeros-length (suc n) = ap (λ m. suc m) (zeros-length n)

-- The digits of a number are a sequence, and denote it.
pub four_digits-value_of :
    (n : ℕ)
    → (is_sequence (four_digits n) ≡ true)
      × (value_of 0 (four_digits n) ≡ n)
      × (all_of is_digit (four_digits n) ≡ true)
unfolding four_digits is_sequence
four_digits-value_of n =
    let cs = digits (suc n) n in
    let padding = 4 - length cs in
    let all =
      all_of-append is_digit (zeros padding) cs (zeros-all_of padding) (digits-all_of (suc n) n) in
    let count = length-append (zeros padding) cs in
    let long : leb 4 (length (zeros padding ++ cs)) ≡ true =
      ground (arith, count, zeros-length padding) in
    (
      and_true (leb 4 (length (zeros padding ++ cs))) (all_of is_digit (zeros padding ++ cs)) long
          all,
      value_of-zeros padding cs ∙ value_of-digits (suc n) n (omega arith),
      all,
    )
