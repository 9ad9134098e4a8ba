-- ===== src/Exporter/Collect.antt =====
-- The collectors of PostgreSQL and ClickHouse of exporter/main.py.
use crypto_analytics_platfor.Base.{
  ℕ, suc, String, Bool, List, [], ◌∷◌, Option, none, some, negsuc, if◌then◌else◌,
}
use Prim.Native.String.{◌++◌ as ◌<>◌}
use crypto_analytics_platfor.Base.Int.{ℤ, ◌-ℤ◌}
use crypto_analytics_platfor.Base.Result.{Result, ok, err, index_error, value_error}
use crypto_analytics_platfor.Exporter.{
  Gauge, oltp_rows, oltp_freshness, oltp_rejects, slot_lag, slot_active, olap_rows, olap_freshness,
  olap_parts, cdc_lag, cdc_dead_letters, row_parity, dbt_test_failures, dbt_last_run, http_error,
  other, Outcome, done, raised, Targets, Exporter, Collect, ◌>>=◌, ◌>>◌, pure, lift, call, set,
  clear, ch_query, to_float,
}

-- `row[i]`
abbrev pub cell : List String → ℕ → Outcome String
cell [] i = raised (other index_error)
cell (x ∷ xs) ℕ.zero = done x
cell (x ∷ xs) (suc i) = cell xs i

-- `a, b = row`, and of three.
abbrev pub pair : List String → Outcome (String × String)
pair (a ∷ (b ∷ [])) = done (a, b)
pair _ = raised (other value_error)

abbrev pub triple : List String → Outcome (String × String × String)
triple (a ∷ (b ∷ (c ∷ []))) = done (a, b, c)
triple _ = raised (other value_error)

abbrev pub of_result : {A : Type 0} → Result A → Outcome A
of_result (ok a) = done a
of_result (err e) = raised (other e)

module _ (T : Targets) where
  open T use {State, Float}

  abbrev pub Step : Type 0
  Step = Collect State Float (Unit {0})

  -- `for x in rows:` a body that may raise.
  unfoldable pub each : {A : Type 0} → (A → Step) → List A → Step
  each body [] = pure tt
  each body (x ∷ xs) = body x >> each body xs

  -- A gauge that is set only from zero on.
  unfoldable pub set_unless_negative : Gauge → List String → Float → Step
  set_unless_negative g labels value =
      if T.is_nonnegative value then set g labels value else pure tt

  -- `if _float(value, -1) >= 0: GAUGE.set(_float(value))`
  unfoldable pub set_read : Gauge → List String → String → Step
  unfolding to_float
  set_read g labels value =
      if T.is_nonnegative (to_float T value (T.of_int (negsuc 0)))
      then set g labels (to_float T value T.zero)
      else pure tt

  unfoldable pub set_slot : String × Float × Bool → Step
  set_slot (slot, lag, active) =
      set slot_lag (slot ∷ []) lag >> set slot_active (slot ∷ []) (if active then T.one else T.zero)

  -- `collect_postgres`, without its guard.
  unfoldable pub collect_postgres : Collect State Float ℤ
  unfolding set_unless_negative each set_slot
  collect_postgres = do
    call T.open_postgres
    candles ← call T.candle_stats
    set oltp_rows ("market_candles_1m" ∷ []) candles.0
    set_unless_negative oltp_freshness ("market_candles_1m" ∷ []) candles.1
    rates ← call T.fx_stats
    set oltp_rows ("fx_rates" ∷ []) rates.0
    set_unless_negative oltp_freshness ("fx_rates" ∷ []) rates.1
    rejects ← call T.reject_count
    set oltp_rejects [] rejects
    slots ← call T.slots
    each set_slot slots
    call T.window_rows

  unfoldable pub set_landing : List String → Step
  unfolding to_float set_read
  set_landing (count ∷ (age ∷ (avg_lag ∷ (p95_lag ∷ (max_lag ∷ []))))) = do
    set olap_rows ("raw" ∷ "market_candles_1m_recent" ∷ []) (to_float T count T.zero)
    set_read olap_freshness ("raw" ∷ "market_candles_1m" ∷ []) age
    set_read cdc_lag ("avg" ∷ []) avg_lag
    set_read cdc_lag ("p95" ∷ []) p95_lag
    set_read cdc_lag ("max" ∷ []) max_lag
  set_landing _ = lift (raised (other value_error))

  -- `if rows:` and what is done with the first one.
  unfoldable pub with_first : (List String → Step) → List (List String) → Step
  with_first body [] = pure tt
  with_first body (row ∷ rows) = body row

  unfoldable pub set_total : List String → Step
  unfolding to_float
  set_total row = do
    total ← lift (cell row 0)
    set olap_rows ("raw" ∷ "market_candles_1m" ∷ []) (to_float T total T.zero)

  unfoldable pub set_parity : ℤ → List String → Step
  unfolding to_float ◌-ℤ◌
  set_parity window_rows row = do
    replica ← lift (cell row 0)
    held ← lift (T.to_int (to_float T replica T.zero))
    set row_parity ("market_candles_1m" ∷ []) (T.of_int (window_rows -ℤ held))

  -- `if pg_stats:` a dictionary with its entry is true.
  unfoldable pub compare_rows : Option ℤ → Step
  unfolding ch_query with_first set_parity
  compare_rows none = pure tt
  compare_rows (some window_rows) =
      ch_query T
        "SELECT count() FROM raw.market_candles_1m FINAL WHERE _op != 'd' AND open_time >= now() - toIntervalHour(1) AND open_time < now() - toIntervalMinute(2)"
      >>= with_first (set_parity window_rows)

  unfoldable pub set_dead_letters : List String → Step
  unfolding to_float
  set_dead_letters row = do
    (topic, count) ← lift (pair row)
    set cdc_dead_letters (topic ∷ []) (to_float T count T.zero)

  unfoldable pub set_mart : String → String → List String → Step
  unfolding to_float set_read
  set_mart database mart row = do
    count ← lift (cell row 0)
    set olap_rows (database ∷ mart ∷ []) (to_float T count T.zero)
    age ← lift (cell row 1)
    set_read olap_freshness (database ∷ mart ∷ []) age

  -- `except requests.HTTPError`: the query counts as one that gave no row.
  abbrev pub forgiven :
      Outcome (List (List String)) × Exporter State Float
      → Outcome (List (List String)) × Exporter State Float
  forgiven (done rows, s) = (done rows, s)
  forgiven (raised http_error, s) = (done [], s)
  forgiven (raised (other e), s) = (raised (other e), s)

  unfoldable pub query_if_there : String → Collect State Float (List (List String))
  unfolding ch_query
  query_if_there sql s = forgiven (ch_query T sql s)

  unfoldable pub scrape_mart : String × String × String → Step
  unfolding query_if_there with_first set_mart
  scrape_mart (database, mart, column) =
      query_if_there (
        "SELECT count(), ifNull(dateDiff('second', max("
        <> (column <> ("), now()), -1) FROM " <> (database <> ("." <> mart)))))
      >>= with_first (set_mart database mart)

  abbrev pub marts : List (String × String × String)
  marts =
      ("analytics_marts", "fct_candles_1m", "open_time")
      ∷ ("analytics_marts", "agg_candles_5m", "bucket_start")
      ∷ ("analytics_marts", "ml_features_1m", "open_time")
      ∷ ("analytics_marts", "fct_market_daily", "trade_date")
      ∷ []

  unfoldable pub set_parts : List String → Step
  unfolding to_float
  set_parts row = do
    (database, mart, count) ← lift (triple row)
    set olap_parts (database ∷ mart ∷ []) (to_float T count T.zero)

  unfoldable pub set_tests : List String → Step
  unfolding to_float
  set_tests row = do
    (model, failures, last_run) ← lift (triple row)
    set dbt_test_failures (model ∷ []) (to_float T failures T.zero)
    set dbt_last_run [] (to_float T last_run T.zero)

  -- The first half of `collect_clickhouse`: the landing layer, the parity, the dead letters.
  unfoldable pub collect_landing : Option ℤ → Step
  unfolding ch_query with_first set_landing set_total compare_rows each set_dead_letters
  collect_landing pg_stats = do
    rows ←
        ch_query T
          "SELECT count(), ifNull(dateDiff('second', max(open_time), now()), -1), ifNull(avg((toUnixTimestamp64Milli(_cdc_arrived_at) - toInt64(_source_ts_ms)) / 1000), -1), ifNull(quantile(0.95)((toUnixTimestamp64Milli(_cdc_arrived_at) - toInt64(_source_ts_ms)) / 1000), -1), ifNull(max((toUnixTimestamp64Milli(_cdc_arrived_at) - toInt64(_source_ts_ms)) / 1000), -1) FROM raw.market_candles_1m WHERE _cdc_arrived_at >= now() - toIntervalMinute(15)"
    with_first set_landing rows
    total ← ch_query T "SELECT count() FROM raw.market_candles_1m FINAL WHERE _op != 'd'"
    with_first set_total total
    compare_rows pg_stats
    dlq ←
        ch_query T
          "SELECT topic, count() FROM raw.cdc_dead_letters WHERE received_at >= now() - toIntervalHour(24) GROUP BY topic"
    clear cdc_dead_letters
    each set_dead_letters dlq

  -- The second half: the marts, the parts, the tests of dbt.
  unfoldable pub collect_marts : Step
  unfolding ch_query each scrape_mart set_parts query_if_there set_tests
  collect_marts = do
    each scrape_mart marts
    parts ←
        ch_query T
          "SELECT database, table, count() FROM system.parts WHERE active AND database IN ('raw', 'analytics_marts') GROUP BY database, table"
    each set_parts parts
    dbt_rows ←
        query_if_there
          "SELECT model_name, countIf(status IN ('fail', 'error')), max(toUnixTimestamp(invocation_at)) FROM analytics_ops.dbt_test_results WHERE invocation_at = (SELECT max(invocation_at) FROM analytics_ops.dbt_test_results) GROUP BY model_name"
    clear dbt_test_failures
    each set_tests dbt_rows

  unfoldable pub collect_clickhouse : Option ℤ → Step
  unfolding collect_landing collect_marts
  collect_clickhouse pg_stats = collect_landing pg_stats >> collect_marts
