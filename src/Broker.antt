-- ===== src/Broker.antt =====
-- The interface of common/broker/base.py: what a broker is given and what it answers. A broker has
-- a state of its own.
pub mod Quotes
pub mod Costs
pub mod Rules
pub mod Pricing
pub mod Checks
pub mod Fills
pub mod Paper
pub mod Matching
mod Tests
use algo_trading.Common.{ℕ, Bool, ◌&&◌, Option, is_some}
use algo_trading.Models.{Error}
use algo_trading.Store.Rows.{OrderIntent}
use algo_trading.Store.Intents.{Order}

pub record Quote : Type 0 where
  pub security_id : ℕ
  pub last_price : ℕ
  pub quoted_at : ℕ
  pub bid : Option ℕ
  pub ask : Option ℕ

unfoldable pub has_depth : Quote → Bool
has_depth q = is_some q.bid && is_some q.ask

-- The order of a submission, a BrokerError with the number of its text, or another raise.
pub data Submission : Type 0 where
  accepted : Order → Submission
  refused : ℕ → Submission
  failed : Error → Submission

pub record Broker (B : Type 0) : Type 0 where
  pub submit : OrderIntent → Quote → B → Submission × B
