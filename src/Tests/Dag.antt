-- ===== src/Tests/Dag.antt =====
-- A run of the DAG in which the build of the staging models fails, and one that goes well.
use crypto_analytics_platfor.Base.{
  ◌≡◌, refl, inl, inr, ◌==◌, Bool-cases, arith, true, false, List, [], ◌∷◌, map, none, pos, All,
}
use crypto_analytics_platfor.Base.Result.{ok}
use crypto_analytics_platfor.Base.Texts.{str_eq}
use crypto_analytics_platfor.Json.{int}
use crypto_analytics_platfor.Pipeline
use crypto_analytics_platfor.Pipeline.{Platform}
use crypto_analytics_platfor.Pipeline.Dag.{
  TaskId, start, check_cdc_connector, check_clickhouse, ingest, wait_for_cdc, dbt_deps,
  dbt_source_freshness, dbt_build_staging, dbt_build_marts, dbt_docs, dbt_results, record_run,
  finish, TriggerRule, all_success, all_done, trigger_rule, upstream, all_tasks, number, Status,
  waiting, running, success, failed, upstream_failed, is_done, is_begun, is_broken, RunState,
  put_status, failed_of, Any, Scheduler, Outside, Works, begin, abandon, succeed, fail, Reach,
  created, moved,
}
use crypto_analytics_platfor.Pipeline.Dag.Gated.{
  IsGated, marts-IsGated, Truthful, record_run-Truthful, reports-run,
}
use crypto_analytics_platfor.Pipeline.Dag.Progress.{Moves, run-Moves}
use crypto_analytics_platfor.Pipeline.Health
use crypto_analytics_platfor.Pipeline.Health.{assert_cdc_healthy, cdc_has_caught_up}
use crypto_analytics_platfor.Pipeline.Records.{run_stats}
use crypto_analytics_platfor.Tests.Pipeline.{platform, status}

abbrev StartsOn : TriggerRule → List Status → Type 0
StartsOn all_success ss = All (λ x. x ≡ success) ss
StartsOn all_done ss = All (λ x. is_done x ≡ true) ss

abbrev GivesUpOn : TriggerRule → List Status → Type 0
GivesUpOn all_success ss = Any (λ x. is_broken x ≡ true) ss
GivesUpOn all_done ss = ⊥

abbrev airflow : Scheduler
airflow = record {
  Starts = StartsOn;
  GivesUp = GivesUpOn;
  all_success_lem = λ ss. (λ h. h, λ h. h);
  all_done_lem = λ ss. (λ h. h, λ h. h);
  give_up_lem = λ ss. (λ h. h, λ h. h);
  all_done_stays = λ ss h. h;
}

-- Every query gives the number 4.
abbrev warehouse : Platform
warehouse = record platform { query = λ q s. (ok ((int (pos 4) ∷ []) ∷ []), s) }

abbrev quiet : Outside warehouse
quiet = record { connector = status "RUNNING"; platform = 0 }

works : (t : TaskId) → Works airflow warehouse (pos 120) t quiet
unfolding assert_cdc_healthy str_eq cdc_has_caught_up Health.check_clickhouse Pipeline.◌>>=◌
works check_cdc_connector = (_, refl)
works check_clickhouse = (int (pos 4), refl)
works wait_for_cdc = refl
works _ = tt

own : (t : TaskId) (x : Status) (s : RunState) → put_status t x s t ≡ x
own t x s = elim (Bool-cases (number t == number t)) [
  | inl e ↦ rw e refl
  | inr e ↦ absurd (ground arith)
]

-- The task has run, and finished so.
abbrev has_run : TaskId → Status → RunState → RunState
has_run t x s = put_status t x (put_status t running s)

abbrev Here : RunState → Type 0
Here s = Reach airflow warehouse (pos 120) s quiet

did :
    (t : TaskId) (s : RunState)
    → Here s
    → s t ≡ waiting
    → StartsOn (trigger_rule t) (map s (upstream t))
    → Here (has_run t success s)
did t s r w h = moved (moved r (begin t w h) quiet) (succeed t (own t running s) (works t)) quiet

broke :
    (t : TaskId) (s : RunState)
    → Here s
    → s t ≡ waiting
    → StartsOn (trigger_rule t) (map s (upstream t))
    → Here (has_run t failed s)
broke t s r w h = moved (moved r (begin t w h) quiet) (fail t (own t running s)) quiet

abbrev after : List TaskId → RunState
after [] = λ t. waiting
after (t ∷ ts) = has_run t success (after ts)

abbrev before_staging : List TaskId
before_staging =
    dbt_source_freshness ∷ dbt_deps ∷ wait_for_cdc ∷ ingest ∷ check_clickhouse ∷ check_cdc_connector
    ∷ start ∷ []

reaches_staging : Here (after before_staging)
unfolding number trigger_rule upstream
reaches_staging =
    did dbt_source_freshness _
      (did dbt_deps _
        (did wait_for_cdc _
          (did ingest _
            (did check_clickhouse _
              (did check_cdc_connector _ (did start _ (created quiet) refl tt) refl (refl, tt)) refl
              (refl, tt))
            refl (refl, (refl, tt)))
          refl (refl, tt))
        refl (refl, tt))
      refl (refl, tt)

-- A run that builds the marts.
abbrev building : RunState
building = put_status dbt_build_marts running (after (dbt_build_staging ∷ before_staging))

reaches_building : Here building
unfolding number trigger_rule upstream
reaches_building =
    moved (did dbt_build_staging _ reaches_staging refl (refl, tt))
      (begin dbt_build_marts refl (refl, tt)) quiet

building_begun : is_begun (building dbt_build_marts) ≡ true
unfolding number
building_begun = refl

marts-IsGated_example : IsGated airflow warehouse (pos 120) reaches_building
marts-IsGated_example = marts-IsGated airflow warehouse (pos 120) reaches_building building_begun

-- The staging models fail: the marts and the documents are given up, and the three reports run.
abbrev given_up : RunState
given_up = put_status dbt_docs upstream_failed (
    put_status dbt_build_marts upstream_failed
      (has_run dbt_build_staging failed (after before_staging)))

reaches_given_up : Here given_up
unfolding number trigger_rule upstream
reaches_given_up =
    moved
      (moved (broke dbt_build_staging _ reaches_staging refl (refl, tt))
        (abandon dbt_build_marts refl (inl refl)) quiet)
      (abandon dbt_docs refl (inl refl)) quiet

abbrev recording : RunState
recording = put_status record_run running (has_run dbt_results success given_up)

reaches_recording : Here recording
unfolding number trigger_rule upstream
reaches_recording =
    moved (did dbt_results _ reaches_given_up refl (refl, tt))
      (begin record_run refl (refl, (refl, tt))) quiet

recording_begun : is_begun (recording record_run) ≡ true
unfolding number
recording_begun = refl

record_run-Truthful_example :
    Truthful airflow warehouse
      (pos 120)
      reaches_recording
      (run_stats warehouse none none (failed_of all_tasks recording)).status
record_run-Truthful_example =
    record_run-Truthful airflow warehouse (pos 120) reaches_recording none none recording_begun

names_the_failed : failed_of all_tasks recording ≡ "dbt_build_staging" ∷ []
unfolding failed_of number
names_the_failed = refl

abbrev finished : RunState
finished = has_run finish success (put_status record_run success recording)

reaches_ended : Here finished
unfolding number trigger_rule upstream
reaches_ended =
    did finish _ (moved reaches_recording (succeed record_run refl tt) quiet) refl (refl, tt)

each_task_ended : All (λ t. is_done (finished t) ≡ true) all_tasks
unfolding number
each_task_ended = (
  refl,
  (
    refl,
    (refl, (refl, (refl, (refl, (refl, (refl, (refl, (refl, (refl, (refl, (refl, tt))))))))))),
  ),
)

reports-run_example :
    All (λ t. is_begun (finished t) ≡ true) (dbt_results ∷ record_run ∷ finish ∷ [])
reports-run_example = reports-run airflow warehouse (pos 120) reaches_ended each_task_ended

waits_for_marts : is_done (building dbt_docs) ≡ false
unfolding number
waits_for_marts = refl

run-Moves_example : Moves airflow warehouse (pos 120) quiet building
run-Moves_example = run-Moves airflow warehouse (pos 120) quiet building dbt_docs waits_for_marts

-- A record that fails leaves no other trace in the states of the leaves, which decide on the run.
abbrev unrecorded : RunState
unrecorded = has_run finish success (
    has_run record_run failed (
      has_run dbt_results success (
        has_run dbt_docs success
          (has_run dbt_build_marts success (after (dbt_build_staging ∷ before_staging))))))

reaches_unrecorded :
    Here unrecorded × (unrecorded dbt_docs ≡ success) × (unrecorded finish ≡ success)
unfolding number trigger_rule upstream
reaches_unrecorded = (
  did finish _
      (broke record_run _
        (did dbt_results _
          (did dbt_docs _
            (did dbt_build_marts _ (did dbt_build_staging _ reaches_staging refl (refl, tt)) refl
              (refl, tt))
            refl (refl, tt))
          refl (refl, tt))
        refl (refl, (refl, tt)))
      refl (refl, tt),
  refl,
  refl,
)
