-- ===== src/Lib.antt =====
-- A model of the trading runtime of this repository, written in Python under common/, with the
-- theorems that make its parts correct.
--
-- Ticks arrive from the broker's feed. The hub (SharedFeedHub) aggregates them into candles (CandleAggregator) and
-- hands ticks and candles to each worker over a bounded queue (BoundedWorkerQueue). A worker's
-- engine builds its own candles (CandleBuilder), asks its strategy, and opens and closes positions
-- (PositionManager) through a gateway, under a guard on the losses and the trades of the day
-- (DailyRiskGuard) and a square-off clock (SquareOffPolicy) whose progress is persisted
-- (PersistedSquareOffAuthority). A signal becomes an intent, an order and fills (OrderLifecycle) through
-- a broker, which in paper trading is a simulator (PaperBroker) over the newest quotes (QuoteBook). An
-- open position is closed by exits (TrailingExit, HighestCloseExit, CombinedCandleExit and others, under
-- CompositeExit). The feed reconnects and gives up when it cannot (ReconnectingFeed).
-- What was signalled, ordered and filled is kept in tables (ExecutionRepository), from which a
-- restarted process recovers.
--
-- Common       lists, Boolean tests, integers, dicts and keyed tables that the parts share
-- Models       common/models/market.py, common/models/trading.py: value types and their checks
-- Candles      common/candles: Interval is floor_to_interval and SessionWindow; Aggregator and
--              Builder are the classes of aggregator.py and builder.py
-- Feed         common/feed/queues.py: WorkerQueue is BoundedWorkerQueue; common/feed/reconnect.py:
--              Reconnect is ReconnectPolicy, FeedHealth and ReconnectingFeed; common/feed/hub.py:
--              Hub and Fanout are SharedFeedHub
-- Broker       common/broker/base.py: the interface; Quotes is quotes.py, Costs costs.py; of paper.py
--              beside them Rules are the configuration, Pricing the price of a market order, Checks
--              the checks of a submission, Fills the fills, Paper submit and Matching on_quote
-- Risk         common/engine/daily_guard.py: DailyGuard; common/risk/squareoff.py: SquareOff
-- Store        common/execution/repository.py over the schema of
--              common/persistence/migrations/versions/0001_walking_skeleton.sql: Rows are the
--              tables, Intents the signals, the intents and the orders, Positions the updates of a
--              position, States those of strategy_state, Fills is apply_fill
-- Execution    common/execution/lifecycle.py: Lifecycle is OrderLifecycle; Correlation is
--              common/execution/correlation.py, the identifiers of orders
-- Engine       common/engine/session.py: Session is MarketSession; square_off.py beside it:
--              Authority; the position and the trade of common/engine/models.py: Trades;
--              common/engine/positions.py: Positions
-- Exits        common/exit/trailing_exit.py, stoploss_exit.py and fixed_target.py beside it, and the
--              hard stop of common/engine/risk_managers.py; Closes the exits on closed candles,
--              Combined combined_candle_exit.py, Composite composite.py, Engines the exits under
--              the interface of base.py
-- Warmup       common/warmup/session_buckets.py: Buckets
-- Tests        below each of these: the theorems applied to concrete calls
--
-- A method is a function from its arguments and the object's state to its result and the new state;
-- a raise is a value beside the state, since what was written before it stays. A method of the
-- repository is one transaction, so a raise leaves the database as it was. The methods of the model
-- have the names of the methods of the code, without a leading underscore; open is open_position,
-- completed is complete, and helpers stand for the branches of a method.
--
-- Identifiers are numbers, since they are only compared. A moment is a number of microseconds, and
-- local midnight falls on multiples of a day; the zone database is a parameter. Prices are natural
-- numbers of the smallest price unit and amounts of money are integers of it, so sums are exact
-- where the code's are rounded; the division that computes an average price is a parameter, and so
-- are the rounding of charges, the gateway, the broker of the lifecycle, the instrument master and the
-- hours of the paper broker, the connections of the feed's adapter and, in the lifecycle, the builder
-- of correlation identifiers. A text is a list of ASCII codes. Slippage, percentages and jitter are
-- whole numbers of a small fraction. The moment that the code reads from the clock is an argument. Every
-- loop of the model is structural recursion over a list; the feed's loop recurs over the connections
-- that come. Two have fuel: the digits of a number have the number's successor, which
-- divisions by ten do not use up, and a range its stop, which its steps do not use up.
--
-- Taken for granted are that the adapter of the feed does not raise when it is asked to subscribe, also
-- on a new connection, and that the session which the rows of the repository name is open.
--
-- Not modelled: the network, files, processes and SQLite itself; the engine's tick
-- handler, the strategies and the indicators. The components of the
-- repository that only present, log or configure are left aside.
pub mod Common
pub mod Models
pub mod Candles
pub mod Feed
pub mod Risk
pub mod Store
pub mod Engine
pub mod Broker
pub mod Execution
pub mod Exits
pub mod Warmup
