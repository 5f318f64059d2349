-- ===== src/Execution/Correlation/RoundTrip.antt =====
-- A correlation identifier is parsed into what it was built of.
use mathlib.Core.Path.{subst}
use algo_trading.Common.{
  ℕ, ◌≡◌, refl, sym, ap, ◌∙◌, Bool, true, false, not, ◌&&◌, ◌||◌, some, [], ◌∷◌, ◌++◌, length,
  arith, ltb, ◌==◌, if-holds,
}
use algo_trading.Models.{Mode, paper, live, Result, ok, err, value_error}
use algo_trading.Execution.Correlation.{
  Text, max_length, strategy_token_length, underscore, is_digit, is_lower, is_alphanumeric, all_of,
  token, initials, without_dashes, is_compact_date, is_real, four_digits, namespace_of, joined,
  within_limit, composed, build_correlation_id, ParsedCorrelationId, chomp, with_first, split,
  is_word, is_eight_digits, field, parsed_sequence, parsed_date, parsed_strategy, mode_of,
  parsed_words, parsed, parse_correlation_id, value_of,
}
use algo_trading.Execution.Correlation.Numerals.{
  and_parts, and_true, all_of-append, four_digits-value_of,
}
use algo_trading.Execution.Correlation.Words.{IfText, token-is_word, initials-is_word}

not_underscore : (c : ℕ) → is_alphanumeric c ≡ true → (c == underscore) ≡ false
unfolding is_alphanumeric
not_underscore c h = ground (arith, h)

-- A text of letters and digits is what stands before the first underscore.
split-word :
    (word rest : Text)
    → all_of is_alphanumeric word ≡ true
    → split (word ++ (underscore ∷ rest)) ≡ some (word, rest)
unfolding split all_of
split-word [] rest h = refl
split-word (c ∷ cs) rest h =
    let parts = and_parts (is_alphanumeric c) (all_of is_alphanumeric cs) h in
    rw (not_underscore c parts.0, split-word cs rest parts.1) (unfold with_first in refl)

digit_alphanumeric : (c : ℕ) → is_digit c ≡ true → is_alphanumeric c ≡ true
unfolding is_alphanumeric
digit_alphanumeric c h = ground (arith, h)

digits_alphanumeric : (cs : Text) → all_of is_digit cs ≡ true → all_of is_alphanumeric cs ≡ true
unfolding all_of
digits_alphanumeric [] h = refl
digits_alphanumeric (c ∷ cs) h =
    let parts = and_parts (is_digit c) (all_of is_digit cs) h in
    and_true (is_alphanumeric c) _ (digit_alphanumeric c parts.0) (digits_alphanumeric cs parts.1)

-- The characters of an identifier.
unfoldable is_plain : ℕ → Bool
unfolding is_alphanumeric
is_plain c = is_alphanumeric c || (c == underscore)

plain_char : (c : ℕ) → is_alphanumeric c ≡ true → is_plain c ≡ true
unfolding is_plain
plain_char c h = ground (arith, h)

plain_of : (cs : Text) → all_of is_alphanumeric cs ≡ true → all_of is_plain cs ≡ true
unfolding all_of
plain_of [] h = refl
plain_of (c ∷ cs) h =
    let parts = and_parts (is_alphanumeric c) (all_of is_alphanumeric cs) h in
    and_true (is_plain c) _ (plain_char c parts.0) (plain_of cs parts.1)

chomp_plain : (cs : Text) → all_of is_plain cs ≡ true → chomp cs ≡ cs
unfolding chomp all_of
chomp_plain [] h = refl
chomp_plain (c ∷ []) h =
    let parts = and_parts (is_plain c) true h in
    let kept : (c == 10) ≡ false = unfold is_plain in ground (arith, parts.0) in rw kept refl
chomp_plain (c ∷ d ∷ cs) h =
    let parts = and_parts (is_plain c) (all_of is_plain (d ∷ cs)) h in
    ap (λ l. c ∷ l) (chomp_plain (d ∷ cs) parts.1)

-- A word and the rest of an identifier, after an underscore.
plain_field :
    (word rest : Text)
    → all_of is_alphanumeric word ≡ true
    → all_of is_plain rest ≡ true
    → all_of is_plain (underscore ∷ (word ++ rest)) ≡ true
plain_field word rest h g =
    unfold all_of is_plain is_alphanumeric in all_of-append is_plain word rest (plain_of word h) g

abbrev pub result_of : Mode → Text → Text → Text → ℕ → ParsedCorrelationId
result_of mode r s date n = record {
  execution_mode = mode;
  runtime_token = r;
  strategy_token = s;
  trading_date = date;
  sequence_number = n;
}

field_found :
    (p : Text → Bool) (word rest : Text)
    → all_of is_alphanumeric word ≡ true
    → p word ≡ true
    → field p (split (word ++ (underscore ∷ rest))) ≡ some (word, rest)
unfolding field
field_found p word rest h fits = rw (split-word word rest h, fits) refl

sequence_parsed :
    (mode : Mode) (r s date : Text) (n : ℕ)
    → parsed_sequence mode r s (some (date, four_digits n)) ≡ ok (result_of mode r s date n)
unfolding parsed_sequence
sequence_parsed mode r s date n =
    let digits = four_digits-value_of n in rw (digits.0, digits.1) refl

word_parts : (word : Text) → is_word word ≡ true → all_of is_alphanumeric word ≡ true
unfolding is_word
word_parts word h = (and_parts (not (length word == 0)) (all_of is_alphanumeric word) h).1

date_parts : (date : Text) → is_compact_date date ≡ true → is_eight_digits date ≡ true
unfolding is_compact_date is_eight_digits
date_parts date h =
    (and_parts (length date == 8 && all_of is_digit date) (is_real (value_of 0 date)) h).0

eight_parts : (date : Text) → is_eight_digits date ≡ true → all_of is_alphanumeric date ≡ true
unfolding is_eight_digits
eight_parts date h =
    digits_alphanumeric date (and_parts (length date == 8) (all_of is_digit date) h).1

namespace_mode : (mode : Mode) → mode_of (namespace_of mode) ≡ some mode
unfolding mode_of namespace_of
namespace_mode paper = refl
namespace_mode live = refl

parsed-joined :
    (mode : Mode) (r s date : Text) (n : ℕ)
    → is_word r ≡ true
    → is_word s ≡ true
    → is_eight_digits date ≡ true
    → parsed (joined mode r s date n) ≡ ok (result_of mode r s date n)
unfolding parsed joined parsed_words
parsed-joined mode r s date n hr hs hd =
    let fr =
      field_found is_word r (s ++ (underscore ∷ (date ++ (underscore ∷ four_digits n))))
        (word_parts r hr) hr in
    let fs = field_found is_word s (date ++ (underscore ∷ four_digits n)) (word_parts s hs) hs in
    let fd = field_found is_eight_digits date (four_digits n) (eight_parts date hd) hd in
    rw namespace_mode (
      ap (parsed_strategy mode) fr
      ∙ (unfold parsed_strategy in ap (parsed_date mode r) fs)
      ∙ (unfold parsed_date in ap (parsed_sequence mode r s) fd)
      ∙ sequence_parsed mode r s date n)

first_plain :
    (mode : Mode) (rest : Text)
    → all_of is_plain rest ≡ true
    → all_of is_plain (namespace_of mode ∷ rest) ≡ true
unfolding all_of namespace_of is_plain is_alphanumeric is_lower
first_plain paper rest h = h
first_plain live rest h = h

joined_plain :
    (mode : Mode) (r s date : Text) (n : ℕ)
    → is_word r ≡ true
    → is_word s ≡ true
    → is_eight_digits date ≡ true
    → all_of is_plain (joined mode r s date n) ≡ true
unfolding joined
joined_plain mode r s date n hr hs hd =
    let digits =
      plain_of (four_digits n) (digits_alphanumeric (four_digits n) (four_digits-value_of n).2) in
    let last : all_of is_plain (underscore ∷ four_digits n) ≡ true =
      unfold all_of is_plain is_alphanumeric in digits in
    let dated = plain_field date (underscore ∷ four_digits n) (eight_parts date hd) last in
    let named = plain_field s _ (word_parts s hs) dated in
    let all = plain_field r _ (word_parts r hr) named in first_plain mode _ all

text_of : Result Text → Text
text_of (ok t) = t
text_of (err e) = []

within_same : (t id : Text) → within_limit t ≡ ok id → t ≡ id
unfolding within_limit
within_same t id =
    if-holds (λ r. r ≡ ok id → t ≡ id) (ltb max_length (length t)) (err value_error) (ok t)
      (λ _ made. absurd (ground (arith, made))) (λ _ made. unfold text_of in ap text_of made)

limited_parsed :
    (mode : Mode) (r s date : Text) (n : ℕ) (id : Text)
    → is_word r ≡ true
    → is_word s ≡ true
    → is_eight_digits date ≡ true
    → within_limit (joined mode r s date n) ≡ ok id
    → parse_correlation_id id ≡ ok (result_of mode r s date n)
unfolding parse_correlation_id
limited_parsed mode r s date n id hr hs hd made =
    let whole = joined mode r s date n in
    let same : whole ≡ id = within_same whole id made in
    subst (λ t. parsed (chomp t) ≡ ok (result_of mode r s date n)) same
      (rw (chomp_plain whole (joined_plain mode r s date n hr hs hd))
        (parsed-joined mode r s date n hr hs hd))

composed_of :
    (mode : Mode) (date : Text) (n : ℕ) (r s : Text) (x y : Result Text)
    → x ≡ ok r
    → y ≡ ok s
    → composed mode x y date n ≡ within_limit (joined mode r s date n)
unfolding composed
composed_of mode date n r s x y known_r known_s =
    ap (λ z. composed mode z y date n) known_r ∙ ap (λ z. composed mode (ok r) z date n) known_s

built_date :
    (mode : Mode) (runtime_id strategy_id trading_date id : Text) (n : ℕ)
    → build_correlation_id mode runtime_id strategy_id trading_date n ≡ ok id
    → is_compact_date (without_dashes trading_date) ≡ true
unfolding build_correlation_id
built_date mode runtime_id strategy_id trading_date id n =
    let date = without_dashes trading_date in
    let build =
      composed mode (initials 3 runtime_id) (token strategy_token_length strategy_id) date n in
    if-holds (λ (z : Result Text). z ≡ ok id → is_compact_date date ≡ true) (is_compact_date date)
      build (err value_error) (λ real _. real) (λ _ made. absurd (ground (arith, made)))

built_text :
    (mode : Mode) (runtime_id strategy_id trading_date id : Text) (n : ℕ)
    → build_correlation_id mode runtime_id strategy_id trading_date n ≡ ok id
    → composed mode (initials 3 runtime_id) (token 4 strategy_id) (without_dashes trading_date) n
      ≡ ok id
unfolding build_correlation_id
built_text mode runtime_id strategy_id trading_date id n =
    let date = without_dashes trading_date in
    let build = composed mode (initials 3 runtime_id) (token 4 strategy_id) date n in
    if-holds (λ (z : Result Text). z ≡ ok id → build ≡ ok id) (is_compact_date date) build
      (err value_error) (λ _ made. made) (λ _ made. absurd (ground (arith, made)))

-- Parsing an identifier that was built gives back the mode, the tokens of the runtime and of the
-- strategy, the date without its dashes, and the sequence number.
pub parse_correlation_id-build_correlation_id :
    (mode : Mode) (runtime_id strategy_id trading_date r s id : Text) (n : ℕ)
    → initials 3 runtime_id ≡ ok r
    → token 4 strategy_id ≡ ok s
    → build_correlation_id mode runtime_id strategy_id trading_date n ≡ ok id
    → parse_correlation_id id ≡ ok (result_of mode r s (without_dashes trading_date) n)
parse_correlation_id-build_correlation_id mode runtime_id strategy_id trading_date r s id n known_r
      known_s built =
    let date = without_dashes trading_date in
    let real = built_date mode runtime_id strategy_id trading_date id n built in
    let hr = subst IfText known_r (initials-is_word 2 runtime_id) in
    let hs = subst IfText known_s (token-is_word 3 strategy_id) in
    let made : within_limit (joined mode r s date n) ≡ ok id =
      sym
        (composed_of mode date n r s (initials 3 runtime_id) (token 4 strategy_id) known_r known_s)
      ∙ built_text mode runtime_id strategy_id trading_date id n built in
    limited_parsed mode r s date n id hr hs (date_parts date real) made
