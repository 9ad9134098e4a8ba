-- ===== src/Pipeline/Records.antt =====
-- What a run leaves in analytics_ops.pipeline_runs: `record_pipeline_run` of
-- airflow/dags/pipeline_common.py, `record_run` and `ingest_backfill` of
-- airflow/dags/crypto_analytics_pipeline.py, and `record_result` of airflow/dags/cdc_reconciliation.py.
pub mod Built
use Prim.Native.String.{◌++◌ as ◌<>◌}
use crypto_analytics_platfor.Base.{
  ℕ, zero, ◌+◌, String, Bool, true, false, List, [], ◌∷◌, Option, none, some, if◌then◌else◌,
}
use crypto_analytics_platfor.Base.Result.{Result, ok, err}
use crypto_analytics_platfor.Base.Texts.{str_eq}
use crypto_analytics_platfor.Configuration.{is_empty}
use crypto_analytics_platfor.Datetime.{Datetime}
use crypto_analytics_platfor.Pipeline.{
  Platform, RunRow, Task, ◌>>=◌, ◌>>◌, pure, lift, clock, with_client,
}
use crypto_analytics_platfor.Pipeline.Dbt.{Stats}
use crypto_analytics_platfor.Pipeline.Reconciliation.{Reconciled, Verdict, passed, diverged}

-- `(stats or {}).get(key, 0)`
unfoldable pub stat : String → Stats → ℕ
unfolding str_eq
stat key [] = 0
stat key ((k, n) ∷ rest) = let later = stat key rest in if str_eq k key then n else later

abbrev pub or_empty : Option Stats → Stats
or_empty none = []
or_empty (some stats) = stats

-- `sum(written.values())`
unfoldable pub total_of : Stats → ℕ
total_of [] = 0
total_of ((symbol, written) ∷ rest) = written + total_of rest

-- The dictionary that `record_run` hands over.
pub record RunStats : Type 0 where
  pub status : String
  pub rows_ingested : ℕ
  pub models_built : ℕ
  pub tests_passed : ℕ
  pub tests_failed : ℕ
  pub notes : String

module _ (P : Platform) where
  open P use {State}

  -- `ingest_backfill`: the first entry of what it returns, over a backfill.
  unfoldable pub ingest_backfill : Task State Stats → Task State Stats
  unfolding total_of
  ingest_backfill run_backfill = do
    written ← run_backfill
    pure (("rows_ingested", total_of written) ∷ [])

  -- `record_pipeline_run`
  unfoldable pub record_pipeline_run : String → String → String → RunStats → Task State (Unit {0})
  unfolding with_client
  record_pipeline_run dag_id run_id started_at stats = with_client P (
      lift (P.from_iso started_at) >>= λ started. clock P >>= λ finished. P.insert_run (record {
        run_id = run_id;
        dag_id = dag_id;
        started_at = started;
        finished_at = finished;
        status = stats.status;
        rows_ingested = stats.rows_ingested;
        models_built = stats.models_built;
        tests_passed = stats.tests_passed;
        tests_failed = stats.tests_failed;
        notes = stats.notes;
      }))

  -- The dictionary, from what the tasks before returned and the tasks that failed.
  unfoldable pub run_stats : Option Stats → Option Stats → List String → RunStats
  unfolding stat
  run_stats ingest_stats dbt_stats failed = record {
    status = if is_empty failed then "success" else "failed";
    rows_ingested = stat "rows_ingested" (or_empty ingest_stats);
    models_built = stat "success" (or_empty dbt_stats);
    tests_passed = stat "pass" (or_empty dbt_stats);
    tests_failed = stat "fail" (or_empty dbt_stats) + stat "error" (or_empty dbt_stats);
    notes = if is_empty failed then "" else "failed_tasks=" <> P.show_list failed;
  }

  -- `dag_run.start_date or datetime.now(UTC)`
  unfoldable pub start_or_now : Option Datetime → Task State Datetime
  start_or_now none = clock P
  start_or_now (some start) = pure start

  -- `record_run`
  unfoldable pub record_run :
      String → Option Datetime → List String → Option Stats → Option Stats → Task State (Unit {0})
  unfolding start_or_now record_pipeline_run run_stats
  record_run run_id start failed ingest_stats dbt_stats = do
    started ← start_or_now start
    record_pipeline_run "crypto_analytics_pipeline" run_id (P.iso_format started)
        (run_stats ingest_stats dbt_stats failed)

  -- `record_result`
  unfoldable pub record_result : String → Option Datetime → Reconciled → Task State (Unit {0})
  unfolding start_or_now with_client
  record_result run_id start summary = with_client P (
      start_or_now start >>= λ started. clock P >>= λ finished. P.insert_run (record {
        run_id = run_id;
        dag_id = "cdc_reconciliation";
        started_at = started;
        finished_at = finished;
        status = "success";
        rows_ingested = summary.rows_clickhouse;
        models_built = 0;
        tests_passed = summary.days_compared;
        tests_failed = summary.divergences;
        notes =
            "postgres="
            <> (P.number summary.rows_postgres
                <> (" clickhouse=" <> P.number summary.rows_clickhouse));
      }))

  -- `record_result(reconcile())`: a RuntimeError of the first task keeps the second from running.
  unfoldable pub after_reconcile : String → Option Datetime → Verdict → Task State (Unit {0})
  unfolding record_result
  after_reconcile run_id start (passed summary) = record_result run_id start summary
  after_reconcile run_id start (diverged ds) = pure tt
