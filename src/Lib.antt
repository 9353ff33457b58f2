-- ===== src/Lib.antt =====
-- A verification library for the order pipeline of the autotrading backend: a Python service that
-- turns the stocks which a strategy wants into orders, hands them to the broker (Korea Investment &
-- Securities) and follows them until they end.
--
-- The program. An order is a row of the table `orders`. Worker 1 (app/worker/tasks_order.py) claims
-- a pending row, asks the broker and records the answer; worker 2 (app/worker/tasks_order_status.py)
-- looks at the order again and again until it ends, changes the original of a modify or cancel order,
-- and gives up after half an hour. Both run as Celery tasks and meet in the table alone, so every
-- statement they make is guarded by the status that it expects. A rebalance computes what to sell
-- and to buy (app/strategy/runtime/position_diff.py), makes the orders, waits for the sales, computes
-- the purchases anew and cancels what stays open (app/strategy/runtime/order_generator.py); it starts
-- behind the gates of app/worker/tasks_rebalance.py. app/worker/recovery.py hands open orders to the
-- workers again after a restart. The routes of app/api/router_order.py insert orders of a user. What the
-- processes share besides the database is in Redis: the locks of app/utils/distributed_lock.py, the kill
-- switch, and the access token that app/services/kis/auth_service.py caches and renews.
--
-- The files.
--   Prelude: the names that all share, tests on numbers, lists by native numbers, texts.
--   Domain: app/core/enums.py and app/domain/order_state.py. Domain.Transitions has the diagram of the
--     statuses, Domain.Traces the lives of an order.
--   Orders: app/db/models/order.py is Orders.Row, app/repository/order_repository.py is
--     Orders.Repository, one function for each statement; Orders.Updates and Orders.Statements have the
--     lemmas on rows.
--   Api: app/api/router_order.py is Api.Orders, one function for each check and route; Api.Http is what a
--     handler of FastAPI does to the world that it shares with the workers.
--   Redis: the commands of Redis with their documented behaviour. Redis.Lock is
--     app/utils/distributed_lock.py, Redis.KillSwitch app/services/safety/kill_switch_service.py with
--     `update_kill_switch` of app/api/router_safety.py.
--   Auth: app/services/kis/auth_service.py; its parent module has the cache and the checks of a token,
--     Auth.Renewal `get_valid_access_token` as one call among other workers.
--   Broker.Client: the methods of app/broker/kis/kis_order.py that send orders, with their attempts. What comes
--     of the n-th request is given, and the pauses are not kept.
--   Broker.TradeService: the requests of app/services/kis/trade_service.py with their checks.
--   Worker.Effects: what a task does to the world: its session and the committed table, the queue, and the
--     logs of publications, alerts and requests to the broker's client. A task is a function of the world; a
--     Python `return` is the outcome `stop`, an exception the outcome `raised`.
--   Worker.Submit: worker 1; its parent module has `place` and the readings, Worker.Submit.Task the body
--     (`claim`, `ask_broker`, `record_result`) and the handlers (`handle`), and `process` is
--     `_process_order`.
--   Worker.Track: worker 2; its parent module has the readings, Worker.Track.Parent step 8,
--     Worker.Track.Task the body and the handlers, and `process_status` is `_process_order_status`.
--   Worker.Recovery: app/worker/recovery.py.
--   Rebalance: Rebalance.Diff is `PositionDiffCalculator`; Rebalance.Generator, Rebalance.Fills and
--     Rebalance.Submission are `OrderGenerator`, `submit_orders` in the last; Rebalance.Executor is
--     app/strategy/runtime/rebalance_executor.py with what app/worker/tasks_rebalance.py does with its result.
--   Rebalance.History: the past rebalances that the gates ask for, by
--     app/repository/rebalance_repository.py.
--   Schedule: `RebalanceWindow` of app/utils/market_calendar.py, and the gates of
--     app/worker/tasks_rebalance.py.
--   Screener: app/strategy/screener/fscore.py, with the check of the date in base_screener.py beside it;
--     Screener.Fscore.Screening is the end of `screen`.
--   Metrics: `calc_drawdown_duration` of app/strategy/metrics/core.py; of app/strategy/metrics/adapters.py,
--     Metrics.Equity is `assemble_equity` and Metrics.Series `build_equity_series`, which reads the tables of
--     Snapshot.
--   Strategy: the interface of app/strategy/strategies/direct_trade_strategy.py with the data of
--     app/schemas/strategy/simulation.py; Strategy.Reversal is reversal_volume_strategy.py beside it.
--   Backtest: `_run_direct_trade` of app/strategy/backtest/backtest_executor.py, a client of the interface.
--   Snapshot: Snapshot.Account is app/services/kis/account_service.py; Snapshot.Capture is
--     app/services/rebalance/portfolio_snapshot_service.py with its task, its tables and their reading.
--   Broker.Balance: `get_balance` of app/broker/kis/kis_account.py; Broker.Available is `get_available_buy`
--     beside it, with the method of that name in app/services/kis/account_service.py.
--   Scenarios: concrete runs.
--
-- Conventions. A UUID is a natural number. A call with a missing or an unknown argument raises, as it
-- does in Python: `call_update_order_failure_result`, `call_update_parent_order_after_child` and
-- `make_kis_order_error` take the argument as an `Option`. A price is the text that Python prints, an
-- average price is in ten-thousandths, quantities and amounts are natural numbers. Times are in
-- microseconds in Worker.Track, Rebalance.Fills and Schedule, and in seconds in Worker.Submit. The JSON
-- payloads, the texts of alerts and the log are not kept; publishing swallows its own errors. A
-- failure of the database is not modelled.
--
-- Parameters. httpx, pydantic and decimal are parameters of Broker.Client and Broker.Balance,
-- whose results are not composed with the worker: there, the broker's client, the token service
-- and the kill switch answer by a `Reply`. `synchronize` is what SQLAlchemy leaves in a loaded
-- object after an UPDATE of its row; where a theorem needs it, it is assumed to carry the row
-- over, as the ORM documents. `Redis` is a record of commands, each at a second of the server,
-- with the laws that its documentation gives; Scenarios.Store is an instance. JSON, the hash of
-- the credentials and the reading of a time are parameters of Auth. What the workers do while a
-- rebalance waits, and what it reads then, is given to Rebalance.Submission. The numbers of pandas
-- are a parameter of Screener, Strategy, Backtest and Metrics.Equity, with the laws of finite
-- floating-point numbers where a theorem needs them; what pandas does to the labels of a series is
-- a parameter of Metrics.Equity, with the laws of its documentation, and Scenarios.Valuing has an
-- instance. The routes and a capture are given the keys of the new rows. How Python reads a number
-- is given to a capture, and so is the order of the database. `new_uuid` is the call
-- `uuid.uuid4()` on the name that app/worker/tasks_order_status.py imports from celery. What other
-- tasks do to the tables in the middle of a capture is given to it. The calendar of QuantLib is a
-- parameter, with the documented meaning of `advance` by a day as a hypothesis.
--
-- Bounds. Only the loop of Broker.Balance, which the source does not bound, runs on fuel: the
-- number of its requests. The loop of `_wait_for_fills` runs over the list of what it reads, and
-- answers `none` if that list ends first; a list that is long enough for the time limit suffices.
-- The loops of the broker's client count down the attempts of their `range`.
--
-- Not modelled: the routes that only read, but for that of a snapshot. Nor are the other queries
-- of the broker's client, market data, the strategy that picks by F-score and momentum, the
-- rebalancing backtest, most metrics and backtests, which are input and output, data frames or
-- floating-point statistics.
pub mod Prelude
pub mod Domain
pub mod Orders
pub mod Api
pub mod Redis
pub mod Auth
pub mod Broker
pub mod Worker
pub mod Rebalance
pub mod Schedule
pub mod Screener
pub mod Metrics
pub mod Strategy
pub mod Backtest
pub mod Snapshot
pub mod Scenarios
