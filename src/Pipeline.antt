-- ===== src/Pipeline.antt =====
-- airflow/dags: the scheduled pipeline, its checks and what it records. Here: the warehouse as the tasks
-- reach it, and `clickhouse_scalar` of pipeline_common.py.
pub mod Reconciliation
pub mod Health
pub mod Dbt
pub mod Rules
pub mod Records
pub mod Dag
use crypto_analytics_platfor.Base.{ℕ, String, Bool, true, false, List, [], ◌∷◌, if◌then◌else◌}
use crypto_analytics_platfor.Base.Int.{ℤ}
use crypto_analytics_platfor.Base.Result.{Result, ok, err, index_error}
use crypto_analytics_platfor.Datetime.{Datetime}
use crypto_analytics_platfor.Json.{Json}
use crypto_analytics_platfor.Json.Access.{is_null}

-- A row of analytics_ops.dbt_test_results, its time in the platform's floats.
pub record TestRow (Float : Type 0) : Type 0 where
  pub run_id : String
  pub invocation_at : Datetime
  pub node_id : String
  pub test_name : String
  pub model_name : String
  pub status : String
  pub failures : ℤ
  pub execution_ms : Float

-- A row of analytics_ops.pipeline_runs.
pub record RunRow : Type 0 where
  pub run_id : String
  pub dag_id : String
  pub started_at : Datetime
  pub finished_at : Datetime
  pub status : String
  pub rows_ingested : ℕ
  pub models_built : ℕ
  pub tests_passed : ℕ
  pub tests_failed : ℕ
  pub notes : String

-- What the tasks call: a ClickHouse client, the REST interface of Kafka Connect, the file that dbt leaves
-- behind, the clock, and Python's floats and texts of values.
pub record Platform : Type 1 where
  pub State : Type 0
  pub Float : Type 0
  pub get_client : State → Result (Unit {0}) × State
  pub query : String → State → Result (List (List Json)) × State
  pub insert_tests : List (TestRow Float) → State → Result (Unit {0}) × State
  pub insert_run : RunRow → State → Result (Unit {0}) × State
  pub close : State → State
  pub now : State → Datetime × State
  -- `str(value)` of a value that is no text, and `float(value or 0.0) * 1000.0`.
  pub shown : Json → String
  pub millis : Json → Result Float
  pub iso_format : Datetime → String
  pub from_iso : String → Result Datetime
  pub number : ℕ → String
  pub show_list : List String → String

-- A task: it may raise, and what it has done by then stays. The sequence of two is shut, so
-- that proofs take it apart by a lemma.
abbrev pub Task : Type 0 → Type 0 → Type 0
Task S A = S → Result A × S

infixl 5 ◌>>=◌ ◌>>◌
unfoldable pub ◌>>=◌ : {S A B : Type 0} → Task S A → (A → Task S B) → Task S B
◌>>=◌ m f s = let (r, s') = m s in elim r [ ok a ↦ f a s' | err e ↦ (err e, s') ]

abbrev pub ◌>>◌ : {S B : Type 0} → Task S (Unit {0}) → Task S B → Task S B
m >> k = m >>= λ _. k

abbrev pub pure : {S A : Type 0} → A → Task S A
pure a s = (ok a, s)

abbrev pub lift : {S A : Type 0} → Result A → Task S A
lift r s = (r, s)

-- `result.result_rows[0][0]`, or the default where there is no row or no value.
unfoldable pub first_value : List (List Json) → Json → Result Json
unfolding is_null
first_value [] default = ok default
first_value ([] ∷ rows) default = err index_error
first_value ((value ∷ values) ∷ rows) default = ok (if is_null value then default else value)

module _ (P : Platform) where
  open P use {State}

  abbrev pub clock : Task State Datetime
  clock s = let (t, s') = P.now s in (ok t, s')

  -- `client = clickhouse_client()`, and the body, with `client.close()` in its `finally`.
  unfoldable pub with_client : {A : Type 0} → Task State A → Task State A
  with_client body s =
      let (r, s') = P.get_client s in
      elim r [ ok u ↦ (let (a, t) = body s' in (a, P.close t)) | err e ↦ (err e, s') ]

  unfoldable pub clickhouse_scalar : String → Json → Task State Json
  unfolding with_client first_value
  clickhouse_scalar query default =
      with_client (P.query query >>= λ rows. lift (first_value rows default))
