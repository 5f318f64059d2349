-- ===== src/Broker/Quotes.antt =====
-- class QuoteBook of common/broker/quotes.py: the newest quotes of each instrument, oldest first.
pub mod Recent
use algo_trading.Common.{
  ℕ, zero, suc, ◌+◌, Bool, true, false, Option, none, some, List, [], ◌∷◌, ◌++◌, length, or_else,
  ltb, leb, if◌then◌else◌,
}
use algo_trading.Common.Dict.{Dict, lookup, insert}
use algo_trading.Models.{Tick, Result, ok, err, value_error}
use algo_trading.Broker.{Quote}

-- `DEFAULT_DEPTH`
abbrev pub default_depth : ℕ
default_depth = 64

pub record QuoteBook : Type 0 where
  pub depth : ℕ
  pub quotes : Dict (List Quote)
  pub recorded : ℕ

unfoldable pub new_book : ℕ → Result QuoteBook
new_book depth =
    if ltb depth 1
    then err value_error
    else ok (record { depth = depth; quotes = []; recorded = 0 })

unfoldable pub quote_from_tick : Tick → Quote
quote_from_tick t = record {
  security_id = t.security_id;
  last_price = t.last_price;
  quoted_at = t.exchange_time;
  bid = t.bid_price;
  ask = t.ask_price;
}

-- A deque with a maximal length that drops at its front.
drop_front : List Quote → List Quote
drop_front [] = []
drop_front (q ∷ qs) = qs

unfoldable pub append_bounded : ℕ → List Quote → Quote → List Quote
unfolding drop_front
append_bounded depth qs q =
    let longer = qs ++ q ∷ [] in if ltb depth (length longer) then drop_front longer else longer

unfoldable pub record_tick : Tick → QuoteBook → QuoteBook
unfolding append_bounded quote_from_tick
record_tick t b = record b {
  quotes =
      insert t.security_id
        (append_bounded b.depth (or_else (lookup t.security_id b.quotes) []) (quote_from_tick t))
        b.quotes;
  recorded = b.recorded + 1;
}

unfoldable pub last_quote : List Quote → Option Quote
last_quote [] = none
last_quote (q ∷ []) = some q
last_quote (q ∷ r ∷ qs) = last_quote (r ∷ qs)

unfoldable pub latest : QuoteBook → ℕ → Option Quote
unfolding last_quote
latest b security_id = last_quote (or_else (lookup security_id b.quotes) [])

unfoldable pub first_from : ℕ → List Quote → Option Quote
first_from deadline [] = none
first_from deadline (q ∷ qs) = if leb deadline q.quoted_at then some q else first_from deadline qs

unfoldable pub after : QuoteBook → ℕ → ℕ → Option Quote
unfolding first_from
after b security_id deadline = first_from deadline (or_else (lookup security_id b.quotes) [])

-- The book of a caller that may have none.
unfoldable pub latest_in : Option QuoteBook → ℕ → Option Quote
unfolding latest
latest_in none security_id = none
latest_in (some b) security_id = latest b security_id

unfoldable pub after_in : Option QuoteBook → ℕ → ℕ → Option Quote
unfolding after
after_in none security_id deadline = none
after_in (some b) security_id deadline = after b security_id deadline
