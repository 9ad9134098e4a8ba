-- ===== src/Pipeline/Dbt.antt =====
-- dbt as airflow/dags/pipeline_common.py runs it, and the publishing of its results.
pub mod Counted
use Prim.Native.String.{◌++◌ as ◌<>◌}
use crypto_analytics_platfor.Base.{
  ℕ, suc, ◌+◌, String, Bool, true, false, ltb, List, [], ◌∷◌, ◌++◌, Option, none, some, pos, length,
  get_elem?, if◌then◌else◌,
}
use crypto_analytics_platfor.Base.Int.{ℤ}
use crypto_analytics_platfor.Base.Result
use crypto_analytics_platfor.Base.Result.{Result, ok, err, attribute_error}
use crypto_analytics_platfor.Base.Strings.{lower, split, starts_with, from_marker}
use crypto_analytics_platfor.Base.Texts.{str_eq}
use crypto_analytics_platfor.Configuration.{Variables}
use crypto_analytics_platfor.Datetime.{Datetime}
use crypto_analytics_platfor.Json.{Json, null, int, str, array, nil, int_of}
use crypto_analytics_platfor.Json.Access.{get_or, iterate}
use crypto_analytics_platfor.Pipeline.{
  Platform, TestRow, Task, ◌>>=◌, ◌>>◌, pure, lift, clock, with_client,
}
use crypto_analytics_platfor.Pipeline.Health.{or_zero}

-- `{key: os.environ[key] for key in keys if key in os.environ}`
unfoldable pub present : Variables → List String → List (String × String)
present vars [] = []
present vars (key ∷ keys) =
    let rest = present vars keys in
    elim (vars key) [ some value ↦ (key, value) ∷ rest | none ↦ rest ]

-- `dbt_env`: none of the keys is the one that gets a default.
unfoldable pub dbt_env : String → Variables → List (String × String)
unfolding present
dbt_env dbt_dir vars =
    present vars (
      "CLICKHOUSE_HOST" ∷ "CLICKHOUSE_HTTP_PORT" ∷ "CLICKHOUSE_USER" ∷ "CLICKHOUSE_PASSWORD"
      ∷ "CLICKHOUSE_DB" ∷ "DBT_TARGET" ∷ "PATH" ∷ "HOME" ∷ [])
    ++ (("DBT_PROFILES_DIR", dbt_dir) ∷ [])

-- `" ".join(parts)`
unfoldable pub joined : List String → String
joined [] = ""
joined (part ∷ []) = part
joined (part ∷ (next ∷ parts)) = part <> (" " <> joined (next ∷ parts))

abbrev pub selection : Option String → List String
selection none = []
selection (some select) = if str_eq select "" then [] else "--select" ∷ select ∷ []

-- `dbt_command`
unfoldable pub dbt_command : String → String → Option String → String → String
unfolding joined
dbt_command dbt_dir subcommand select extra = joined (
    ("/opt/dbt-venv/bin/dbt" ∷ subcommand ∷ "--no-use-colors" ∷ "--project-dir" ∷ dbt_dir
      ∷ "--profiles-dir" ∷ dbt_dir ∷ [])
    ++ (selection select ++ (if str_eq extra "" then [] else extra ∷ [])))

abbrev pub from_markers : String → List String → String
from_markers test_name [] = test_name
from_markers test_name (marker ∷ markers) =
    let later = from_markers test_name markers in
    elim (from_marker test_name marker) [ some rest ↦ rest | none ↦ later ]

-- `_model_from_test`
unfoldable pub model_from_test : String → String
unfolding from_marker
model_from_test test_name = from_markers test_name ("stg_" ∷ "fct_" ∷ "dim_" ∷ "agg_" ∷ "ml_" ∷ [])

-- The dictionary `summary`, whose keys are fixed.
pub record Counts : Type 0 where
  pub passes : ℕ
  pub fails : ℕ
  pub errors : ℕ
  pub skips : ℕ
  pub others : ℕ

-- `summary[status if status in summary else "other"] += 1`
unfoldable pub bump : String → Counts → Counts
unfolding str_eq
bump status c =
    if str_eq status "pass"
    then record c { passes = suc c.passes }
    else if str_eq status "fail"
    then record c { fails = suc c.fails }
    else if str_eq status "error"
    then record c { errors = suc c.errors }
    else if str_eq status "skipped"
    then record c { skips = suc c.skips }
    else record c { others = suc c.others }

-- `parts[2] if len(parts) > 2 else node_id`
unfoldable pub test_name_of : String → String
unfolding split
test_name_of node_id = elim (get_elem? (split b'.' node_id) 2) [ some name ↦ name | none ↦ node_id ]

-- `node_id.startswith("test.")`: a value that is no text has no such method.
unfoldable pub test_id : Json → Result (Option String)
unfolding starts_with
test_id (str s) = ok (if starts_with s "test." then some s else none)
test_id _ = err attribute_error

module _ (P : Platform) (run_id : String) (invocation_at : Datetime) where
  open P use {State, Float}

  -- `str(value).lower()`
  unfoldable pub status_of : Json → String
  unfolding lower
  status_of (str s) = lower s
  status_of value = lower (P.shown value)

  unfoldable pub test_row : Json → String → String → Result (List (TestRow Float))
  unfolding get_or int_of test_name_of model_from_test
  test_row result status node_id = Result.◌>>=◌ (get_or result "failures" null) λ failures.
      Result.◌>>=◌ (int_of (or_zero failures)) λ count.
        Result.◌>>=◌ (get_or result "execution_time" null) λ time.
          Result.◌>>=◌ (P.millis time) λ execution_ms. ok (
            record {
              run_id = run_id;
              invocation_at = invocation_at;
              node_id = node_id;
              test_name = test_name_of node_id;
              model_name = model_from_test (test_name_of node_id);
              status = status;
              failures = count;
              execution_ms = execution_ms;
            }
            ∷ [])

  abbrev pub row_of : Json → String → Option String → Result (List (TestRow Float))
  row_of result status none = ok []
  row_of result status (some node_id) = test_row result status node_id

  -- One pass of the loop over the results: the status that it counts and the row that it adds.
  unfoldable pub read_result : Json → Result (String × List (TestRow Float))
  unfolding get_or status_of test_id test_row
  read_result result = Result.◌>>=◌ (get_or result "unique_id" (str "")) λ node_id.
      Result.◌>>=◌ (get_or result "status" (str "unknown")) λ status.
        Result.◌>>=◌ (test_id node_id) λ test.
          Result.◌>>=◌ (row_of result (status_of status) test) λ rows. ok (status_of status, rows)

  -- The loop, behind what it has counted and the rows that it has.
  unfoldable pub read_results :
      List Json → Counts → List (TestRow Float) → Result (Counts × List (TestRow Float))
  unfolding read_result bump
  read_results [] counts rows = ok (counts, rows)
  read_results (result ∷ results) counts rows =
      Result.◌>>=◌ (read_result result)
        λ read. read_results results (bump read.0 counts) (rows ++ read.1)

abbrev pub no_counts : Counts
no_counts = record { passes = 0; fails = 0; errors = 0; skips = 0; others = 0 }

-- `payload.get("results", [])`, as the loop goes over it.
unfoldable pub results_of : Json → Result (List Json)
unfolding get_or iterate
results_of payload = Result.◌>>=◌ (get_or payload "results" (array nil)) λ results. iterate results

-- What the task returns, as the next task finds it.
abbrev pub Stats : Type 0
Stats = List (String × ℕ)

abbrev pub stats_of : ℕ → Counts → Stats
stats_of published c =
    ("published", published)
    ∷ ("pass", c.passes)
    ∷ ("fail", c.fails)
    ∷ ("error", c.errors)
    ∷ ("skipped", c.skips)
    ∷ ("other", c.others)
    ∷ []

module _ (P : Platform) (run_id : String) where
  open P use {State, Float}

  -- `if rows:` the insertion.
  unfoldable pub insert_rows : List (TestRow Float) → Task State (Unit {0})
  unfolding with_client
  insert_rows [] = pure tt
  insert_rows (row ∷ rows) = with_client P (P.insert_tests (row ∷ rows))

  unfoldable pub publish : Json → Task State Stats
  unfolding results_of read_results insert_rows
  publish payload = do
    at ← clock P
    results ← lift (results_of payload)
    read ← lift (read_results P run_id at results no_counts [])
    insert_rows read.1
    pure (stats_of (length read.1) read.0)

  -- `publish_dbt_results`, from the decoded file, if there is one.
  unfoldable pub publish_dbt_results : Option Json → Task State Stats
  unfolding publish
  publish_dbt_results none = pure (("published", 0) ∷ [])
  publish_dbt_results (some payload) = publish payload
