-- ===== src/Execution/Correlation/Tests.antt =====
-- Runs of the identifiers, and the hypotheses of the round trip at a concrete order.
use algo_trading.Common.{◌≡◌, refl, true, [], ◌∷◌}
use algo_trading.Models.{paper, ok, err, value_error}
use algo_trading.Execution.Correlation.{
  Text, token, initials, without_dashes, build_correlation_id, parse_correlation_id, is_paper,
}
use algo_trading.Execution.Correlation.RoundTrip.{
  result_of, parse_correlation_id-build_correlation_id,
}

-- "intraday_options"
abbrev runtime : Text
runtime =
    105 ∷ 110 ∷ 116 ∷ 114 ∷ 97 ∷ 100 ∷ 97 ∷ 121 ∷ 95 ∷ 111 ∷ 112 ∷ 116 ∷ 105 ∷ 111 ∷ 110 ∷ 115 ∷ []

-- "Rsi_50"
abbrev strategy : Text
strategy = 82 ∷ 115 ∷ 105 ∷ 95 ∷ 53 ∷ 48 ∷ []

-- "2026-07-29"
abbrev day : Text
day = 50 ∷ 48 ∷ 50 ∷ 54 ∷ 45 ∷ 48 ∷ 55 ∷ 45 ∷ 50 ∷ 57 ∷ []

-- "29-07-2026"
abbrev day_first : Text
day_first = 50 ∷ 57 ∷ 45 ∷ 48 ∷ 55 ∷ 45 ∷ 50 ∷ 48 ∷ 50 ∷ 54 ∷ []

-- "io", "rsi5" and "p_io_rsi5_20260729_0007"
abbrev runtime_token : Text
runtime_token = 105 ∷ 111 ∷ []

abbrev strategy_token : Text
strategy_token = 114 ∷ 115 ∷ 105 ∷ 53 ∷ []

abbrev identifier : Text
identifier =
    112 ∷ 95 ∷ 105 ∷ 111 ∷ 95 ∷ 114 ∷ 115 ∷ 105 ∷ 53 ∷ 95 ∷ 50 ∷ 48 ∷ 50 ∷ 54 ∷ 48 ∷ 55 ∷ 50 ∷ 57
    ∷ 95 ∷ 48 ∷ 48 ∷ 48 ∷ 55 ∷ []

built : build_correlation_id paper runtime strategy day 7 ≡ ok identifier
unfolding build_correlation_id
built = refl

-- A day written with its date first is refused, although it has eight digits.
day_first_refused : build_correlation_id paper runtime strategy day_first 7 ≡ err value_error
unfolding build_correlation_id
day_first_refused = refl

-- An identifier of more than 25 characters is refused.
too_long : build_correlation_id paper runtime strategy day 1000000 ≡ err value_error
unfolding build_correlation_id
too_long = refl

of_paper : is_paper identifier ≡ true
unfolding is_paper
of_paper = refl

runtime_known : initials 3 runtime ≡ ok runtime_token
unfolding initials
runtime_known = refl

strategy_known : token 4 strategy ≡ ok strategy_token
unfolding token
strategy_known = refl

parse_correlation_id-build_correlation_id_example :
    parse_correlation_id identifier
    ≡ ok (result_of paper runtime_token strategy_token (without_dashes day) 7)
parse_correlation_id-build_correlation_id_example =
    parse_correlation_id-build_correlation_id paper runtime strategy day runtime_token
      strategy_token identifier 7 runtime_known strategy_known built
