-- ===== src/Pipeline/Health.antt =====
-- `assert_cdc_healthy` of airflow/dags/pipeline_common.py, and the checks of the DAG before and after
-- the ingestion, of airflow/dags/crypto_analytics_pipeline.py.
pub mod Running
use crypto_analytics_platfor.Base.{
  ℕ, String, Bool, true, false, not, List, [], ◌∷◌, Option, none, some, pos, if◌then◌else◌,
}
use crypto_analytics_platfor.Base.Int.{ℤ, ◌+ℤ◌, ltb_ℤ, leb_ℤ}
use crypto_analytics_platfor.Base.Result
use crypto_analytics_platfor.Base.Result.{Result, ok, err, raise_if, runtime_error}
use crypto_analytics_platfor.Configuration.{is_empty}
use crypto_analytics_platfor.Json.{Json, null, int, array, nil, int_of}
use crypto_analytics_platfor.Json.Access.{subscript, get_or, iterate, is_text, is_null, truthy}
use crypto_analytics_platfor.Pipeline.{Platform, Task, ◌>>=◌, ◌>>◌, pure, lift, clickhouse_scalar}

-- `[task["state"] for task in tasks]`
unfoldable pub states_of : List Json → Result (List Json)
unfolding subscript
states_of [] = ok []
states_of (task ∷ tasks) =
    let later = states_of tasks in
    Result.◌>>=◌ (subscript task "state") λ state. Result.◌>>=◌ later λ states. ok (state ∷ states)

-- The error about a task names its `id`, which may be missing.
unfoldable pub report : Json → Result (Unit {0})
unfolding subscript get_or
report task =
    Result.◌>>=◌ (subscript task "id")
      λ id. Result.◌>>=◌ (get_or task "trace" null) λ trace. err runtime_error

-- The loop over `status["tasks"]`.
unfoldable pub check_tasks : List Json → Result (Unit {0})
unfolding subscript is_text report
check_tasks [] = ok tt
check_tasks (task ∷ tasks) =
    let later = check_tasks tasks in
    Result.◌>>=◌ (subscript task "state")
      λ state. if is_text state "RUNNING" then later else report task

-- The task states must be some, and each RUNNING.
unfoldable pub check_states : Json → List Json → Result (Unit {0})
unfolding subscript iterate check_tasks
check_states status states = Result.◌>>◌ (raise_if (is_empty states) runtime_error) (
    Result.◌>>=◌ (subscript status "tasks")
      λ tasks. Result.◌>>=◌ (iterate tasks) λ listed. check_tasks listed)

unfoldable pub check_state : Json → List Json → Json → Result (Unit {0})
unfolding is_text check_states
check_state status states connector =
    Result.◌>>◌ (raise_if (not (is_text connector "RUNNING")) runtime_error)
      (check_states status states)

unfoldable pub connector_state : Json → Result Json
unfolding subscript
connector_state status =
    Result.◌>>=◌ (subscript status "connector") λ connector. subscript connector "state"

unfoldable pub task_states : Json → Result (List Json)
unfolding get_or iterate states_of
task_states status =
    Result.◌>>=◌ (get_or status "tasks" (array nil))
      λ tasks. Result.◌>>=◌ (iterate tasks) λ listed. states_of listed

-- `assert_cdc_healthy`, on the status that Kafka Connect gives.
unfoldable pub assert_cdc_healthy : Json → Result (Json × List Json)
unfolding connector_state task_states check_state
assert_cdc_healthy status = Result.◌>>=◌ (connector_state status) λ connector.
    Result.◌>>=◌ (task_states status)
      λ states. Result.◌>>=◌ (check_state status states connector) λ passed. ok (connector, states)

abbrev pub or_zero : Json → Json
or_zero value = if truthy value then value else int (pos 0)

module _ (P : Platform) where
  open P use {State}

  -- `check_clickhouse`: the version, where the four databases are there.
  unfoldable pub check_clickhouse : Task State Json
  unfolding clickhouse_scalar truthy int_of
  check_clickhouse = do
    version ← clickhouse_scalar P "select version()" null
    databases ←
        clickhouse_scalar P
          "select count() from system.databases where name in ('raw','analytics_staging','analytics_marts','analytics_ops')"
          null
    found ← lift (int_of (or_zero databases))
    lift (raise_if (ltb_ℤ found (pos 4)) runtime_error)
    pure version

  -- The second query only feeds a log line, but it may raise.
  unfoldable pub is_fresh : ℤ → Json → Task State Bool
  unfolding clickhouse_scalar int_of is_null ◌+ℤ◌
  is_fresh sla newest_lag = if is_null newest_lag then pure false else do
    pending ←
        clickhouse_scalar P
          "select count() from raw.market_candles_1m where _cdc_arrived_at >= now() - toIntervalSecond(30)"
          (int (pos 0))
    lag ← lift (int_of newest_lag)
    pure (leb_ℤ lag (sla +ℤ pos 120))

  -- `_cdc_has_caught_up`
  unfoldable pub cdc_has_caught_up : ℤ → Task State Bool
  unfolding clickhouse_scalar is_fresh
  cdc_has_caught_up sla =
      clickhouse_scalar P
        "select dateDiff('second', max(open_time), now()) from raw.market_candles_1m" null
      >>= is_fresh sla
