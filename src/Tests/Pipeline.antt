-- ===== src/Tests/Pipeline.antt =====
-- Runs of the pipeline's checks and records.
use crypto_analytics_platfor.Base.{
  ℕ, ◌≡◌, refl, ◌↔◌, ◌≤◌, ◌+◌, String, List, [], ◌∷◌, none, some, pos, length,
}
use crypto_analytics_platfor.Base.Result.{ok, err, runtime_error}
use crypto_analytics_platfor.Base.Texts.{str_eq}
use crypto_analytics_platfor.Json.{Json, str, int, object, array, nil, cons, end, field}
use crypto_analytics_platfor.Json.Access.{truthy}
use crypto_analytics_platfor.Pipeline.{Platform, ◌>>=◌}
use crypto_analytics_platfor.Pipeline.Reconciliation.{Key, Counts, compare, diverged}
use crypto_analytics_platfor.Pipeline.Reconciliation.Judged.{Judges, compare-Judges}
use crypto_analytics_platfor.Pipeline.Health.{assert_cdc_healthy}
use crypto_analytics_platfor.Pipeline.Health.Running.{IsHealthy, assert_cdc_healthy_iff}
use crypto_analytics_platfor.Pipeline.Dbt.{
  model_from_test, dbt_command, publish_dbt_results, stats_of, Stats, results_of,
}
use crypto_analytics_platfor.Pipeline.Dbt.Counted.{IsPublished, publish_dbt_results-IsPublished}
use crypto_analytics_platfor.Pipeline.Records.{run_stats}
use crypto_analytics_platfor.Pipeline.Records.Built.{run_stats-Recorded}

abbrev eth : String → Key
eth day = record { symbol = "ETHUSDT"; day = day }

abbrev btc : String → Key
btc day = record { symbol = "BTCUSDT"; day = day }

-- A row of a completed day is missing from the replica; today it lags.
abbrev oltp : Counts
oltp = (eth "2026-03-01", 1440) ∷ (eth "2026-03-02", 600) ∷ (btc "2026-03-01", 1440) ∷ []

abbrev olap : Counts
olap = (eth "2026-03-02", 598) ∷ (btc "2026-03-01", 1440) ∷ (eth "2026-03-01", 1439) ∷ []

finds_loss :
    compare (pos 0) "2026-03-02" oltp olap
    ≡ diverged (
        record {
          symbol = "ETHUSDT";
          date = "2026-03-01";
          postgres = 1440;
          clickhouse = 1439;
          difference = pos 1;
        }
        ∷ [])
unfolding compare str_eq
finds_loss = refl

compare-Judges_example : Judges 0 "2026-03-02" oltp olap (compare (pos 0) "2026-03-02" oltp olap)
compare-Judges_example = compare-Judges 0 "2026-03-02" oltp olap

abbrev task : String → Json
task state = object (field "id" (int (pos 0)) (field "state" (str state) end))

abbrev pub status : String → Json
status state = object (
    field "connector" (object (field "state" (str "RUNNING") end))
      (field "tasks" (array (cons (task state) nil)) end))

accepts_running : assert_cdc_healthy (status "RUNNING") ≡ ok (str "RUNNING", str "RUNNING" ∷ [])
unfolding assert_cdc_healthy str_eq
accepts_running = refl

refuses_failed : assert_cdc_healthy (status "FAILED") ≡ err runtime_error
unfolding assert_cdc_healthy str_eq
refuses_failed = refl

assert_cdc_healthy_iff_example :
    ((r : Json × List Json) × (assert_cdc_healthy (status "RUNNING") ≡ ok r))
    ↔ IsHealthy (status "RUNNING")
assert_cdc_healthy_iff_example = assert_cdc_healthy_iff (status "RUNNING")

attributes : model_from_test "not_null_stg_market_candles_symbol" ≡ "stg_market_candles_symbol"
unfolding model_from_test
attributes = refl

selects :
    dbt_command "/opt/airflow/dbt" "build" (some "tag:mart") ""
    ≡ "/opt/dbt-venv/bin/dbt build --no-use-colors --project-dir /opt/airflow/dbt --profiles-dir /opt/airflow/dbt --select tag:mart"
unfolding dbt_command str_eq
selects = refl

-- A warehouse that takes what it is given.
abbrev pub platform : Platform
platform = record {
  State = ℕ;
  Float = ℕ;
  get_client = λ s. (ok tt, s);
  query = λ q s. (ok [], s);
  insert_tests = λ rows s. (ok tt, s + length rows);
  insert_run = λ row s. (ok tt, s + 1);
  close = λ s. s;
  now = λ s. (63900000000000000, s);
  shown = λ v. "value";
  millis = λ v. ok 0;
  iso_format = λ t. "now";
  from_iso = λ t. ok 63900000000000000;
  number = λ n. "number";
  show_list = λ xs. "list";
}

-- A model that was built and a test that passed.
abbrev run_results : Json
run_results = object (
    field "results"
      (array (
        cons
          (object (
            field "unique_id" (str "model.crypto.fct_prices") (field "status" (str "success") end)))
          (cons
            (object (
              field "unique_id" (str "test.crypto.unique_stg_candles.0a")
                (field "status" (str "pass") end)))
            nil)))
      end)

abbrev published : Stats
published = stats_of 1 (record { passes = 1; fails = 0; errors = 0; skips = 0; others = 1 })

publishes : publish_dbt_results platform "run" (some run_results) 0 ≡ (ok published, 1)
unfolding publish_dbt_results str_eq ◌>>=◌ truthy
publishes = refl

publish_dbt_results-IsPublished_example : IsPublished platform "run" run_results published
publish_dbt_results-IsPublished_example =
    publish_dbt_results-IsPublished platform "run" run_results 0 1 publishes

lists_two :
    results_of run_results
    ≡ ok (
        object
          (field "unique_id" (str "model.crypto.fct_prices") (field "status" (str "success") end))
        ∷ object (
            field "unique_id"
              (str "test.crypto.unique_stg_candles.0a")
              (field "status" (str "pass") end))
        ∷ [])
unfolding results_of str_eq
lists_two = refl

run_stats-Recorded_example :
    ((run_stats platform none (some published) []).models_built ≡ 0)
    × ((run_stats platform none (some published) []).tests_passed
          + (run_stats platform none (some published) []).tests_failed
        ≤ 2)
run_stats-Recorded_example =
    run_stats-Recorded platform "run" [] none run_results _ 0 1 lists_two publishes
