-- ===== src/Lib.antt =====
-- The crypto analytics platform, its ingestion side and the checks of its pipeline: closed one-minute
-- candles are fetched from an exchange, pass a validation gate, and are upserted into the OLTP database,
-- in cycles over the configured symbols, with an offline source to fall back on. Scheduled tasks check
-- the replication into the warehouse, compare both sides, and record what dbt has built, and an exporter
-- reports the state of every part.
--
-- The program's parts, and the files that model them:
-- - ingestion/models.py: Models.antt (Candle, FxRate, validate_candle, validate_fx) and
--   Models/Parse.antt (_decimal as decimal_field, _ms_to_utc, parse_binance_kline). Decimals are in
--   Decimal.antt, and decoded JSON is in Json.antt.
-- - ingestion/sources/base.py: Sources/Grid.antt (last_closed_minute, minute_range), with the moments
--   and to_ms in Datetime.antt. The interface CandleSource is the record CandleSources of
--   Service.antt, which the service takes as a parameter.
-- - ingestion/sources/binance.py: Sources/Binance.antt (the object), Sources/Binance/Page.antt
--   (_fetch_page, _backoff) and Sources/Binance/Fetch.antt (fetch).
-- - ingestion/db.py: Db.antt (the tables, the driver), Db/Statements.antt (the SQL),
--   Db/Connection.antt (connect, close, cursor, and the methods on it), and Db/Symbol.antt
--   (split_symbol).
-- - ingestion/service.py: Service.antt (the object), Service/Window.antt (pending_window,
--   ingest_window, _write_candles), Service/Cycle.antt (cycle, _note_failure, _note_success),
--   Service/Backfill.antt (run_backfill, from its budget and its try on), Service/Startup.antt
--   (wait_for_database), Service/Refresh.antt (refresh_fx, maybe_refresh_fx), Service/Run.antt
--   (run, request_stop) and Service/Main.antt (the constructor, the head of run_backfill, main), over
--   the sources of Sources/Live.antt.
-- - ingestion/fx.py: Fx.antt (_er_api, _fawaz, fetch_rate).
-- - ingestion/config.py: Configuration.antt (Config, from_env, validate).
-- - ingestion/sources/__init__.py: Sources/Registry.antt (build_source).
-- - ingestion/sources/replay.py: Sources/Replay.antt (ReplaySource).
-- - airflow/dags/cdc_reconciliation.py: Pipeline/Reconciliation.antt (the comparison of the counts).
-- - airflow/dags/pipeline_common.py: Pipeline.antt (the warehouse, clickhouse_scalar),
--   Pipeline/Health.antt (assert_cdc_healthy), Pipeline/Dbt.antt (dbt_command, publish_dbt_results) and
--   Pipeline/Records.antt (record_pipeline_run).
-- - airflow/dags/crypto_analytics_pipeline.py: Pipeline/Health.antt (check_clickhouse,
--   _cdc_has_caught_up), Pipeline/Records.antt (ingest_backfill, record_run) and Pipeline/Dag.antt
--   (the tasks, the wiring and the steps of a run).
-- - scripts/ci_seed_clickhouse.py: Seed.antt.
-- - scripts/validate_configs.py: Linter.antt (the checks of syntax), Linter/Scan.antt (the searches),
--   Linter/Documents.antt, Linter/Schema.antt, Linter/Compose.antt (the other checks) and
--   Linter/Entry.antt (main).
-- - scripts/register_connector.py: Register/Template.antt (substitute, load_payload) and
--   Register/Connect.antt (request, wait_for_connect, wait_for_running, main).
-- - exporter/main.py: Exporter.antt (the gauges, guarded, ch_query), Exporter/Collect.antt and
--   Exporter/Connect.antt (the collectors, scrape_once).
-- - ingestion/metrics.py: Metrics.antt; each call that counts or sets is an event of a trace.
-- The other files of a component hold its theorems, and Tests/ has the runs on concrete inputs.
--
-- How they interact: the service works out a window from the clock and the newest candle held, calls
-- the active source on it, and hands its candles to the writer; the Binance client hands each kline to
-- the parser and the gate. A method that may raise is a function from the object's state to a result
-- and the new state, so that what was done before an exception stays done.
--
-- What comes from outside is a parameter: the clock, random.uniform, sleep, HTTP replies and the
-- faults of a transaction are the record Environment; psycopg2 and PostgreSQL's column types are the
-- record Driver, with the documented behaviour of execute_values (pages in order, the count of the
-- last one) and the fact that a column type leaves the keys as they are.
-- A failed statement or commit leaves the connection in an aborted transaction, on which the server
-- refuses every statement until a rollback.
-- Airflow's scheduler is the record Scheduler, with its documented trigger rules: when a task starts,
-- and when it is given up. A run of the DAG is a sequence of steps of that scheduler and of the tasks;
-- what the tasks look at changes from moment to moment in any way.
-- A signal comes between two reads of the flag it sets, so the run loop takes the number of reads
-- before it. The generator's floats, sine, exponential and hash are the record Floats. Dates of ISO
-- 8601 other than YYYY-MM-DD are read by a field of Environment.
--
-- Bounds and fuel: numbers are unbounded as in Python. A moment is a number of microseconds since the
-- year 1, and arithmetic that leaves the calendar raises. The paging loop runs on fuel, the
-- milliseconds between the cursor and the end, plus one; each round moves the cursor by at least one
-- (Sources/Binance/Fuel.antt). minute_range runs on the number of minutes of its range, plus two.
-- Waiting for the database runs on a third of its timeout in seconds, plus one, since a round sleeps
-- three seconds; where the clock does not tick that may not be enough, and the model then says that the
-- program still waits. The run loop runs on the number of reads before the signal, plus one. The generator
-- runs on the milliseconds of its range, plus one. The waits of the registration run on half of
-- WAIT_SECONDS, plus one, since a round sleeps two seconds at least.
--
-- Not modelled: log lines, the text of errors, the latency histogram, the metrics endpoint. Moments
-- are converted exactly, where CPython goes through a float that is exact enough for the calendar's
-- milliseconds below 2 ^ 33 seconds. A JSON float is the decimal value of its repr. The backoff is
-- computed for attempts below 1024, where the float power is finite. PostgreSQL returns aware
-- timestamps, so the branches on naive ones are left out. Letters outside ASCII have no other case in
-- the model. The service's naps are counted in microseconds, where the code subtracts floats. The
-- schedules, timeouts and numbers of retries of the DAGs, and the exporter's histogram and its
-- endless loop are left out. The linter's classes of characters are those of ASCII.
pub mod Base
pub mod Decimal
pub mod Datetime
pub mod Json
pub mod Environment
pub mod Pipeline
pub mod Register
pub mod Exporter
pub mod Models
pub mod Linter
pub mod Metrics
pub mod Configuration
pub mod Sources
pub mod Db
pub mod Seed
pub mod Service
pub mod Fx
pub mod Tests
