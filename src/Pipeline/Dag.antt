-- ===== src/Pipeline/Dag.antt =====
-- airflow/dags/crypto_analytics_pipeline.py: the tasks, their wiring, and the steps of a run.
pub mod Invariant
pub mod Gated
pub mod Progress
use Prim.Native.String.{◌++◌ as ◌<>◌}
use crypto_analytics_platfor.Base.{
  Option, some, none, ℕ, zero, suc, ◌≡◌, ◌↔◌, ◌≢◌, ◌⊎◌, String, Bool, true, false, List, [], ◌∷◌,
  ◌==◌, All, map, if◌then◌else◌,
}
use crypto_analytics_platfor.Base.Int.{ℤ}
use crypto_analytics_platfor.Base.Result.{Result, ok}
use crypto_analytics_platfor.Json.{Json}
use crypto_analytics_platfor.Pipeline.{Platform}
use crypto_analytics_platfor.Pipeline.Dbt.{dbt_command}
use crypto_analytics_platfor.Pipeline.Health
use crypto_analytics_platfor.Pipeline.Health.{assert_cdc_healthy, cdc_has_caught_up}

pub data TaskId : Type 0 where
  start check_cdc_connector check_clickhouse ingest wait_for_cdc dbt_deps dbt_source_freshness
        dbt_build_staging dbt_build_marts dbt_docs dbt_results record_run finish :
      TaskId

-- `task_id`, without the prefix of its group.
unfoldable pub name_of : TaskId → String
name_of start = "start"
name_of check_cdc_connector = "check_cdc_connector"
name_of check_clickhouse = "check_clickhouse"
name_of ingest = "ingest_backfill"
name_of wait_for_cdc = "wait_for_cdc_propagation"
name_of dbt_deps = "dbt_deps"
name_of dbt_source_freshness = "dbt_source_freshness"
name_of dbt_build_staging = "dbt_build_staging"
name_of dbt_build_marts = "dbt_build_marts"
name_of dbt_docs = "dbt_docs_generate"
name_of dbt_results = "publish_dbt_results"
name_of record_run = "record_run"
name_of finish = "finish"

-- What the dbt tasks run, in a project directory.
unfoldable pub bash_command : (dbt_dir : String) → TaskId → Option String
unfolding dbt_command
bash_command dbt_dir dbt_deps = some (dbt_command dbt_dir "deps" none "")
bash_command dbt_dir dbt_source_freshness =
    some (dbt_command dbt_dir "source" none "freshness" <> " || true")
bash_command dbt_dir dbt_build_staging = some (dbt_command dbt_dir "build" (some "tag:staging") "")
bash_command dbt_dir dbt_build_marts = some (dbt_command dbt_dir "build" (some "tag:mart") "")
bash_command dbt_dir dbt_docs = some (dbt_command dbt_dir "docs" none "generate" <> " || true")
bash_command dbt_dir _ = none

pub data TriggerRule : Type 0 where
  all_success all_done : TriggerRule

unfoldable pub trigger_rule : TaskId → TriggerRule
trigger_rule dbt_results = all_done
trigger_rule record_run = all_done
trigger_rule finish = all_done
trigger_rule _ = all_success

-- The wiring. A group stands for both its tasks, and a task whose result another takes comes before it.
unfoldable pub upstream : TaskId → List TaskId
upstream start = []
upstream check_cdc_connector = start ∷ []
upstream check_clickhouse = start ∷ []
upstream ingest = check_cdc_connector ∷ check_clickhouse ∷ []
upstream wait_for_cdc = ingest ∷ []
upstream dbt_deps = wait_for_cdc ∷ []
upstream dbt_source_freshness = dbt_deps ∷ []
upstream dbt_build_staging = dbt_source_freshness ∷ []
upstream dbt_build_marts = dbt_build_staging ∷ []
upstream dbt_docs = dbt_build_marts ∷ []
upstream dbt_results = dbt_build_marts ∷ []
upstream record_run = ingest ∷ dbt_results ∷ []
upstream finish = record_run ∷ []

abbrev pub all_tasks : List TaskId
all_tasks =
    start ∷ check_cdc_connector ∷ check_clickhouse ∷ ingest ∷ wait_for_cdc ∷ dbt_deps
    ∷ dbt_source_freshness ∷ dbt_build_staging ∷ dbt_build_marts ∷ dbt_docs ∷ dbt_results
    ∷ record_run ∷ finish ∷ []

-- The place of a task in a topological order of the wiring.
unfoldable pub number : TaskId → ℕ
number start = 0
number check_cdc_connector = 1
number check_clickhouse = 2
number ingest = 3
number wait_for_cdc = 4
number dbt_deps = 5
number dbt_source_freshness = 6
number dbt_build_staging = 7
number dbt_build_marts = 8
number dbt_docs = 9
number dbt_results = 10
number record_run = 11
number finish = 12

-- The state of a task instance.
pub data Status : Type 0 where
  waiting running up_for_retry success failed upstream_failed : Status

abbrev pub is_done : Status → Bool
is_done success = true
is_done failed = true
is_done upstream_failed = true
is_done _ = false

-- It has been started.
abbrev pub is_begun : Status → Bool
is_begun waiting = false
is_begun upstream_failed = false
is_begun _ = true

abbrev pub is_broken : Status → Bool
is_broken failed = true
is_broken upstream_failed = true
is_broken _ = false

abbrev pub is_failed : Status → Bool
is_failed failed = true
is_failed _ = false

abbrev pub RunState : Type 0
RunState = TaskId → Status

abbrev pub put_status : TaskId → Status → RunState → RunState
put_status t x s u = if number t == number u then x else s u

-- `[ti.task_id for ti in dag_run.get_task_instances() if ti.state == "failed"]`
unfoldable pub failed_of : List TaskId → RunState → List String
unfolding name_of
failed_of [] s = []
failed_of (t ∷ ts) s =
    let rest = failed_of ts s in if is_failed (s t) then name_of t ∷ rest else rest

abbrev pub Any : {A : Type 0} → (A → Type 0) → List A → Type 0
Any P [] = ⊥
Any P (x ∷ xs) = P x ⊎ Any P xs

-- Airflow's scheduler, as its documentation of the trigger rules has it: when it starts a task that
-- waits, and when it gives one up because of the states of the tasks before it.
pub record Scheduler : Type 1 where
  pub Starts : TriggerRule → List Status → Type 0
  pub GivesUp : TriggerRule → List Status → Type 0
  pub all_success_lem : (ss : List Status) → Starts all_success ss ↔ All (λ x. x ≡ success) ss
  pub all_done_lem : (ss : List Status) → Starts all_done ss ↔ All (λ x. is_done x ≡ true) ss
  pub give_up_lem : (ss : List Status) → GivesUp all_success ss ↔ Any (λ x. is_broken x ≡ true) ss
  pub all_done_stays : (ss : List Status) → GivesUp all_done ss → ⊥

-- What the tasks of a run look at, at one moment: the status of the connector that Kafka Connect shows,
-- and the platform.
pub record Outside (P : Platform) : Type 0 where
  pub connector : Json
  pub platform : P.State

module _ (A : Scheduler) (P : Platform) (sla : ℤ) where
  -- What a task that ends in success has found at that moment: the callables of the two checks and of
  -- the sensor.
  abbrev pub Works : TaskId → Outside P → Type 0
  Works check_cdc_connector w =
      (found : Json × List Json) × (assert_cdc_healthy w.connector ≡ ok found)
  Works check_clickhouse w =
      (version : Json) × ((Health.check_clickhouse P w.platform).0 ≡ ok version)
  Works wait_for_cdc w = (cdc_has_caught_up P sla w.platform).0 ≡ ok true
  Works _ w = Unit

  -- One move of a run: the scheduler starts a task or gives it up, and a task that runs ends, or
  -- fails and is tried again.
  pub data Step (w : Outside P) (s : RunState) : RunState → Type 0 where
    begin :
        (t : TaskId)
        → s t ≡ waiting
        → A.Starts (trigger_rule t) (map s (upstream t))
        → Step w s (put_status t running s)
    abandon :
        (t : TaskId)
        → s t ≡ waiting
        → A.GivesUp (trigger_rule t) (map s (upstream t))
        → Step w s (put_status t upstream_failed s)
    succeed : (t : TaskId) → s t ≡ running → Works t w → Step w s (put_status t success s)
    fail : (t : TaskId) → s t ≡ running → Step w s (put_status t failed s)
    retry : (t : TaskId) → s t ≡ running → Step w s (put_status t up_for_retry s)
    again : (t : TaskId) → s t ≡ up_for_retry → Step w s (put_status t running s)

  -- A run up to a moment. What is outside changes from each moment to the next in any way.
  pub data Reach : RunState → Outside P → Type 0 where
    created : (w : Outside P) → Reach (λ t. waiting) w
    moved :
        {s s' : RunState} {w : Outside P} → Reach s w → Step w s s' → (w' : Outside P) → Reach s' w'

  -- A moment of a run: the states of its tasks, and what was outside.
  abbrev pub Visited : {s : RunState} {w : Outside P} → Reach s w → RunState → Outside P → Type 0
  Visited {s} {w} (created _) s0 w0 = (s0 ≡ s) × (w0 ≡ w)
  Visited {s} {w} (moved r step _) s0 w0 = ((s0 ≡ s) × (w0 ≡ w)) ⊎ Visited r s0 w0

  -- At a moment of the run, the task was running, and what was outside was so.
  abbrev pub During :
      {s : RunState} {w : Outside P} → Reach s w → TaskId → (Outside P → Type 0) → Type 0
  During r t Q = (s0 : RunState) × (w0 : Outside P) × Visited r s0 w0 × (s0 t ≡ running) × Q w0
