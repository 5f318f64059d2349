-- ===== src/Execution/Correlation.antt =====
-- common/execution/correlation.py. A text is the list of its characters' codes, all of them ASCII. A
-- sequence number is natural, so the check of its sign is left out.
pub mod Numerals
pub mod Words
pub mod RoundTrip
mod Tests
use algo_trading.Common.{
  ℕ, zero, suc, ◌+◌, ◌-◌, ◌*◌, ◌/◌, ◌%◌, Bool, true, false, not, ◌&&◌, ◌||◌, Option, none, some,
  List, [], ◌∷◌, ◌++◌, length, map, ltb, leb, ◌==◌, if◌then◌else◌,
}
use algo_trading.Models.{Mode, paper, live, Error, Result, ok, err, value_error}

abbrev pub Text : Type 0
Text = List ℕ

abbrev pub max_length : ℕ
max_length = 25

abbrev pub strategy_token_length : ℕ
strategy_token_length = 4

unfoldable pub is_digit : ℕ → Bool
is_digit c = leb 48 c && leb c 57

unfoldable pub is_lower : ℕ → Bool
is_lower c = leb 97 c && leb c 122

abbrev pub underscore : ℕ
underscore = 95

-- A character of a token.
unfoldable pub is_alphanumeric : ℕ → Bool
unfolding is_digit is_lower
is_alphanumeric c = is_lower c || is_digit c

unfoldable pub lower : ℕ → ℕ
lower c = if leb 65 c && leb c 90 then c + 32 else c

unfoldable pub all_of : (ℕ → Bool) → Text → Bool
all_of p [] = true
all_of p (c ∷ cs) = p c && all_of p cs

-- What `_SANITISE_RE` leaves of a text in small letters.
unfoldable pub sanitised : Text → Text
unfolding lower is_alphanumeric
sanitised [] = []
sanitised (c ∷ cs) =
    let rest = sanitised cs in if is_alphanumeric (lower c) then lower c ∷ rest else rest

-- `text[:limit]`
unfoldable pub first : ℕ → Text → Text
first zero cs = []
first (suc n) [] = []
first (suc n) (c ∷ cs) = c ∷ first n cs

cut : ℕ → Text → Result Text
unfolding first
cut limit [] = err value_error
cut limit (c ∷ cs) = ok (first limit (c ∷ cs))

-- `_token`
unfoldable pub token : ℕ → Text → Result Text
unfolding cut sanitised
token limit value = cut limit (sanitised value)

-- The parts of a text between the characters that `_SANITISE_RE` takes, with the part that is being
-- read.
parts_from : Text → Text → List Text
unfolding lower is_alphanumeric
parts_from part [] = part ∷ []
parts_from part (c ∷ cs) =
    let longer = parts_from (part ++ lower c ∷ []) cs in
    let next = parts_from [] cs in if is_alphanumeric (lower c) then longer else part ∷ next

some_parts : List Text → List Text
some_parts [] = []
some_parts ([] ∷ ps) = some_parts ps
some_parts ((c ∷ cs) ∷ ps) = (c ∷ cs) ∷ some_parts ps

-- The first characters of parts.
heads : List Text → Text
heads [] = []
heads ([] ∷ ps) = heads ps
heads ((c ∷ cs) ∷ ps) = c ∷ heads ps

shortened : ℕ → List Text → Result Text
unfolding first heads
shortened limit [] = err value_error
shortened limit (p ∷ []) = ok (first limit p)
shortened limit (p ∷ q ∷ ps) = ok (first limit (heads (p ∷ q ∷ ps)))

-- `_initials`
unfoldable pub initials : ℕ → Text → Result Text
unfolding shortened some_parts parts_from
initials limit value = shortened limit (some_parts (parts_from [] value))

unfoldable pub without_dashes : Text → Text
without_dashes [] = []
without_dashes (c ∷ cs) = let rest = without_dashes cs in if c == 45 then rest else c ∷ rest

-- The number that a text of digits denotes, after one that is already read.
unfoldable pub value_of : ℕ → Text → ℕ
value_of n [] = n
value_of n (c ∷ cs) = value_of (n * 10 + (c - 48)) cs

unfoldable pub is_leap : ℕ → Bool
is_leap y = ((y % 4) == 0) && (not ((y % 100) == 0) || ((y % 400) == 0))

unfoldable pub days_in : ℕ → ℕ → ℕ
unfolding is_leap
days_in y m =
    if m == 2
    then if is_leap y then 29 else 28
    else if (m == 4) || (m == 6) || (m == 9) || (m == 11)
    then 30
    else 31

-- `datetime.strptime` of eight digits.
unfoldable pub is_date : ℕ → ℕ → ℕ → Bool
unfolding days_in
is_date y m d = leb 1 y && leb 1 m && leb m 12 && leb 1 d && leb d (days_in y m)

is_real : ℕ → Bool
unfolding is_date
is_real n = is_date (n / 10000) (n / 100 % 100) (n % 100)

unfoldable pub is_compact_date : Text → Bool
unfolding is_real value_of all_of
is_compact_date cs = (length cs == 8) && all_of is_digit cs && is_real (value_of 0 cs)

-- The digits of a number; fuel above the number is enough.
unfoldable pub digits : ℕ → ℕ → Text
digits zero n = []
digits (suc fuel) n =
    let more = digits fuel (n / 10) in
    if ltb n 10 then (48 + n) ∷ [] else more ++ (48 + n % 10) ∷ []

unfoldable pub zeros : ℕ → Text
zeros zero = []
zeros (suc n) = 48 ∷ zeros n

-- `f"{n:04d}"`
unfoldable pub four_digits : ℕ → Text
unfolding digits zeros
four_digits n = let cs = digits (suc n) n in zeros (4 - length cs) ++ cs

unfoldable pub namespace_of : Mode → ℕ
namespace_of paper = 112
namespace_of live = 108

unfoldable pub joined : Mode → Text → Text → Text → ℕ → Text
unfolding namespace_of four_digits
joined mode runtime strategy date n =
    let dated = date ++ (underscore ∷ four_digits n) in
    let named = strategy ++ (underscore ∷ dated) in
    namespace_of mode ∷ (underscore ∷ (runtime ++ (underscore ∷ named)))

within_limit : Text → Result Text
within_limit cs = if ltb max_length (length cs) then err value_error else ok cs

composed : Mode → Result Text → Result Text → Text → ℕ → Result Text
unfolding within_limit joined
composed mode (err e) strategy date n = err e
composed mode (ok r) (err e) date n = err e
composed mode (ok r) (ok s) date n = within_limit (joined mode r s date n)

unfoldable pub build_correlation_id : Mode → Text → Text → Text → ℕ → Result Text
unfolding composed initials token is_compact_date without_dashes
build_correlation_id mode runtime_id strategy_id trading_date n =
    let date = without_dashes trading_date in
    if is_compact_date date
    then composed mode (initials 3 runtime_id) (token strategy_token_length strategy_id) date n
    else err value_error

pub record ParsedCorrelationId : Type 0 where
  pub execution_mode : Mode
  pub runtime_token : Text
  pub strategy_token : Text
  pub trading_date : Text
  pub sequence_number : ℕ

-- `$` lets one newline at the end pass.
unfoldable pub chomp : Text → Text
chomp [] = []
chomp (c ∷ []) = if c == 10 then [] else c ∷ []
chomp (c ∷ d ∷ cs) = c ∷ chomp (d ∷ cs)

unfoldable pub with_first : ℕ → Option (Text × Text) → Option (Text × Text)
with_first c none = none
with_first c (some (word, rest)) = some (c ∷ word, rest)

-- The text before the first underscore, and the text after it.
unfoldable pub split : Text → Option (Text × Text)
unfolding with_first
split [] = none
split (c ∷ cs) =
    let rest = with_first c (split cs) in if c == underscore then some ([], cs) else rest

unfoldable pub is_word : Text → Bool
unfolding all_of is_alphanumeric
is_word cs = not (length cs == 0) && all_of is_alphanumeric cs

unfoldable pub is_eight_digits : Text → Bool
unfolding all_of is_digit
is_eight_digits cs = (length cs == 8) && all_of is_digit cs

unfoldable pub is_sequence : Text → Bool
unfolding all_of is_digit
is_sequence cs = leb 4 (length cs) && all_of is_digit cs

-- A word of this kind before the first underscore.
unfoldable pub field : (Text → Bool) → Option (Text × Text) → Option (Text × Text)
field p none = none
field p (some (word, rest)) = if p word then some (word, rest) else none

parsed_sequence : Mode → Text → Text → Option (Text × Text) → Result ParsedCorrelationId
unfolding is_sequence value_of
parsed_sequence mode r s none = err value_error
parsed_sequence mode r s (some (date, cs)) =
    if is_sequence cs
    then ok (record {
      execution_mode = mode;
      runtime_token = r;
      strategy_token = s;
      trading_date = date;
      sequence_number = value_of 0 cs;
    })
    else err value_error

parsed_date : Mode → Text → Option (Text × Text) → Result ParsedCorrelationId
unfolding parsed_sequence field split is_eight_digits
parsed_date mode r none = err value_error
parsed_date mode r (some (s, cs)) = parsed_sequence mode r s (field is_eight_digits (split cs))

parsed_strategy : Mode → Option (Text × Text) → Result ParsedCorrelationId
unfolding parsed_date field split is_word
parsed_strategy mode none = err value_error
parsed_strategy mode (some (r, cs)) = parsed_date mode r (field is_word (split cs))

mode_of : ℕ → Option Mode
mode_of c = if c == 112 then some paper else if c == 108 then some live else none

parsed_words : Option Mode → Text → Result ParsedCorrelationId
unfolding parsed_strategy field split is_word
parsed_words none cs = err value_error
parsed_words (some mode) [] = err value_error
parsed_words (some mode) (c ∷ cs) =
    if c == underscore then parsed_strategy mode (field is_word (split cs)) else err value_error

parsed : Text → Result ParsedCorrelationId
unfolding parsed_words mode_of
parsed [] = err value_error
parsed (c ∷ cs) = parsed_words (mode_of c) cs

unfoldable pub parse_correlation_id : Text → Result ParsedCorrelationId
unfolding parsed chomp
parse_correlation_id cs = parsed (chomp cs)

-- `startswith("p_")`
unfoldable pub is_paper : Text → Bool
is_paper [] = false
is_paper (c ∷ []) = false
is_paper (c ∷ d ∷ cs) = (c == 112) && (d == underscore)
