-- ===== src/Lib.antt =====
-- Models and theorems for the trading core of the asymmetric committee, a program that lets a
-- committee of agents decide on equity positions once a week and trades them through a broker.
--
-- The parts that are modelled, and the files they are in:
--   contracts/enums.py            Contracts/RunStatus (the table of run statuses), Contracts/Enums
--   risk/kill_switch.py           Risk/KillSwitch (triggers, the latch, its reconstruction)
--   execution/gateway.py          Execution/Gateway (what may be called, what a call answers)
--   execution/executor.py         Execution/Pricing (`collar_price`, `slippage_bps`), Execution/Leg
--                                 (`_Leg`, `_Reference`, `_submit_once`), Execution/Book
--                                 (`execute_book`, `_wait_once`, `_await_all`)
--   execution/halt.py             Execution/Halt (`HaltController`)
--   execution/trade_conditions.py Execution/Conditions (the sale-condition tables, the verdict)
--   execution/reference.py,
--   execution/reference_rules.py  Execution/Reference (live, backtest and halt references)
--   evaluation/calendar_rules.py  Evaluation/Calendar (`TradingCalendar`, `build_calendar`)
--   evaluation/tbill_rules.py     Evaluation/TBill (`select_rate`)
--   evaluation/sequential.py      Evaluation/Sequential (`SequentialTest.observe`)
--   evaluation/scorable.py        Evaluation/Scorable (`admit_run`, `run_scoring`)
--   orchestration/schedule.py     Orchestration/Schedule (`weekly_as_of`, `execution_window`)
--   orchestration/pipeline.py     Orchestration/Pipeline (the committee, a step of a run, the halts
--                                 between steps, a backtest)
--   orchestration/anchor_stage.py Orchestration/AnchorStage (`anchor_run` and what it calls)
--   orchestration/execution_stage.py
--                                 Orchestration/Targets (`plan_targets`), Orchestration/ExecutionStage
--                                 (`execute_run`, over Execution/Book and Execution/Halt)
--   evaluation/anchoring.py       Evaluation/Anchoring (digests, the check of a proof, Bitcoin)
--   contracts/commitment.py       Contracts/Commitment (the canonical form, the hash, its check)
--   store/as_of.py                Store/AsOf (the reads of the data as of an instant)
--   agents/llm/ratelimit.py       Agents/RateLimit (the token bucket that callers share)
--   gate/model.py                 Gate (the training set, the top of the ranking)
--
-- Base holds what they share: tests, lists, integers over the native numbers, sorting, and the
-- actions that stand for Python code that raises (Base/Actions), with assertions on what holds
-- before and after an action (Base/Actions/Triple).
--
-- A method is an action on a state: it answers a value or an error and the state it leaves, so that
-- what was written before a raise stays written. The executor and the halt controller share a World:
-- the history of all outside calls, newest first, and the kill switch. The broker, the clock, the
-- sleeper, the recorder and the price lookup are functions from that history to answers (Env), so
-- every behaviour of a broker, fills between two calls included, is one Env. The executor visits the
-- legs of a book in shared phases and collects the errors of a phase (Execution/Book, `visit`).
--
-- Units: quantities are millionths of a share, the tolerance of the code; prices are hundredths of a
-- cent; equity is in cents, or a figure that is not finite; instants and spans are in microseconds;
-- a ratio keeps numerator and denominator. So floating-point rounding is not modelled. Identifiers
-- of runs, securities and orders are numbers, and a client id keeps the parts that it is joined from.
--
-- The pipeline and the stages follow the same scheme: their stores, agents, calendars and stamping
-- service are functions from what happened before to answers (World of the pipeline, Parts of the
-- anchor stage, Store of the execution stage), and a property of a run is a property of the history
-- that it leaves. The execution stage keeps the World of the executor beside its own history.
--
-- The reads of a store are functions on lists of rows, one for each query: a filter, an order and
-- what is taken of it. The hash function, the proof format of opentimestamps and the printing of
-- numbers and instants in the canonical form are parameters. The limiter counts its tokens in parts
-- of 1/60000 of a unit, so that a refill of one millisecond is a whole number of parts.
--
-- The other evaluation modules are pure functions: a raise is an error of a result. Dictionaries are
-- lists of entries with one entry for each key. In the sequential test arithmetic on floats is a
-- parameter of which nothing is assumed; admission to scoring takes the sources that it asks as a
-- record.
--
-- Loops: the walks over a calendar count down the 3660 days of the code, the polls the attempts that
-- the code counts, and the cancel rounds the three rounds of the code. The loop of the limiter gets
-- two runs of its script, which are enough for a caller that is alone. The weeks of a backtest get
-- a round for each unit of time from its start to its end, and a step is a unit or more. All other
-- loops run over lists.
--
-- Not modelled: I/O (HTTP clients, the SQL driver, the task queue), the floating-point statistics of
-- features and simulation, the diagnostic of the sequential test, which no decision depends on, and
-- the parts of the program that no file above names. Admission to scoring takes the answers of
-- evaluation/anchoring.py and contracts/commitment.py as fields of its record of sources.
pub mod Agents
pub mod Base
pub mod Contracts
pub mod Evaluation
pub mod Execution
pub mod Gate
pub mod Orchestration
pub mod Risk
pub mod Store
