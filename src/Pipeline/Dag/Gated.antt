-- ===== src/Pipeline/Dag/Gated.antt =====
-- What a run of the DAG has behind it when it builds the marts, and what it records at its end.
use crypto_analytics_platfor.Base.{
  ℕ, zero, suc, ◌≡◌, refl, sym, ap, ◌∙◌, ◌<◌, ◌⊎◌, inl, inr, String, Bool, true, false, List, [],
  ◌∷◌, Option, All, Bool-cases, arith,
}
use crypto_analytics_platfor.Base.Int.{ℤ}
use crypto_analytics_platfor.Base.Result.{ok}
use crypto_analytics_platfor.Configuration.{is_empty}
use crypto_analytics_platfor.Json.{Json}
use crypto_analytics_platfor.Pipeline.{Platform}
use crypto_analytics_platfor.Pipeline.Dbt.{Stats}
use crypto_analytics_platfor.Pipeline.Health
use crypto_analytics_platfor.Pipeline.Health.{cdc_has_caught_up}
use crypto_analytics_platfor.Pipeline.Health.Running.{IsHealthy, assert_cdc_healthy_iff}
use crypto_analytics_platfor.Pipeline.Records.{run_stats}
use crypto_analytics_platfor.Pipeline.Dag.{
  TaskId, start, check_cdc_connector, check_clickhouse, ingest, wait_for_cdc, dbt_deps,
  dbt_source_freshness, dbt_build_staging, dbt_build_marts, dbt_docs, dbt_results, record_run,
  finish, all_done, trigger_rule, upstream, all_tasks, number, Status, waiting, running,
  up_for_retry, success, failed, upstream_failed, is_done, is_begun, is_broken, is_failed, RunState,
  failed_of, Any, Outside, During, Scheduler, Reach,
}
use crypto_analytics_platfor.Pipeline.Dag.Invariant.{IsSound, Done, Reach-IsSound}

-- The wiring has no cycle.
pub upstream_earlier : (t : TaskId) → All (λ u. number u < number t) (upstream t)
unfolding number upstream
upstream_earlier start = tt
upstream_earlier check_cdc_connector = (omega arith, tt)
upstream_earlier check_clickhouse = (omega arith, tt)
upstream_earlier ingest = (omega arith, (omega arith, tt))
upstream_earlier wait_for_cdc = (omega arith, tt)
upstream_earlier dbt_deps = (omega arith, tt)
upstream_earlier dbt_source_freshness = (omega arith, tt)
upstream_earlier dbt_build_staging = (omega arith, tt)
upstream_earlier dbt_build_marts = (omega arith, tt)
upstream_earlier dbt_docs = (omega arith, tt)
upstream_earlier dbt_results = (omega arith, tt)
upstream_earlier record_run = (omega arith, (omega arith, tt))
upstream_earlier finish = (omega arith, tt)

-- An element of which both hold.
pub picked :
    {A : Type 0} (P Q : A → Type 0) (xs : List A) → All P xs → Any Q xs → (x : A) × P x × Q x
picked P Q [] h k = absurd k
picked P Q (x ∷ xs) h (inl q) = (x, h.0, q)
picked P Q (x ∷ xs) h (inr k) = picked P Q xs h.1 k

broken_cases : (x : Status) → is_broken x ≡ true → (x ≡ failed) ⊎ (x ≡ upstream_failed)
broken_cases failed h = inl refl
broken_cases upstream_failed h = inr refl
broken_cases waiting h = absurd cc
broken_cases running h = absurd cc
broken_cases up_for_retry h = absurd cc
broken_cases success h = absurd cc

done_cases : (x : Status) → is_done x ≡ true → (x ≡ success) ⊎ (is_broken x ≡ true)
done_cases success h = inl refl
done_cases failed h = inr refl
done_cases upstream_failed h = inr refl
done_cases waiting h = absurd cc
done_cases running h = absurd cc
done_cases up_for_retry h = absurd cc

of_all : (Q : TaskId → Type 0) → All Q all_tasks → (t : TaskId) → Q t
of_all Q h start = h.0
of_all Q h check_cdc_connector = h.1.0
of_all Q h check_clickhouse = h.1.1.0
of_all Q h ingest = h.1.1.1.0
of_all Q h wait_for_cdc = h.1.1.1.1.0
of_all Q h dbt_deps = h.1.1.1.1.1.0
of_all Q h dbt_source_freshness = h.1.1.1.1.1.1.0
of_all Q h dbt_build_staging = h.1.1.1.1.1.1.1.0
of_all Q h dbt_build_marts = h.1.1.1.1.1.1.1.1.0
of_all Q h dbt_docs = h.1.1.1.1.1.1.1.1.1.0
of_all Q h dbt_results = h.1.1.1.1.1.1.1.1.1.1.0
of_all Q h record_run = h.1.1.1.1.1.1.1.1.1.1.1.0
of_all Q h finish = h.1.1.1.1.1.1.1.1.1.1.1.1.0

none_failed :
    (ts : List TaskId) (s : RunState)
    → is_empty (failed_of ts s) ≡ true
    → All (λ t. is_failed (s t) ≡ false) ts
unfolding failed_of
none_failed [] s h = tt
none_failed (t ∷ ts) s h = elim (Bool-cases (is_failed (s t))) [
  | inl e ↦ absurd (cc (rw e at h))
  | inr e ↦ (e, none_failed ts s (rw e at h))
]

some_failed :
    (ts : List TaskId) (s : RunState)
    → is_empty (failed_of ts s) ≡ false
    → (t : TaskId) × (s t ≡ failed)
unfolding failed_of
some_failed [] s h = absurd cc
some_failed (t ∷ ts) s h = elim (Bool-cases (is_failed (s t))) [
  | inl e ↦ (t, failed_status (s t) e)
  | inr e ↦ some_failed ts s (rw e at h)
]
  where
    failed_status : (x : Status) → is_failed x ≡ true → x ≡ failed
    failed_status failed h = refl
    failed_status waiting h = absurd cc
    failed_status running h = absurd cc
    failed_status up_for_retry h = absurd cc
    failed_status success h = absurd cc
    failed_status upstream_failed h = absurd cc

module _ (A : Scheduler) (P : Platform) (sla : ℤ) where
  -- Behind every broken task there is one that failed itself.
  failed_root :
      (W : TaskId → Type 0) (s : RunState) (n : ℕ) (t : TaskId)
      → IsSound A P sla W s
      → number t < n
      → is_broken (s t) ≡ true
      → (u : TaskId) × (s u ≡ failed)
  failed_root W s zero t i h b = absurd (omega arith)
  failed_root W s (suc n) t i h b = elim (broken_cases (s t) b) [
    | inl e ↦ (t, e)
    | inr e ↦
        let (rule, any) = i.doomed t e in
        let (u, earlier, broken) =
          picked (λ u. number u < number t) (λ u. is_broken (s u) ≡ true) (upstream t)
            (upstream_earlier t) any in
        failed_root W s n u i (omega arith) broken
  ]

  -- What a run has behind it: the tasks before the marts have succeeded; and at a moment of the run in
  -- which the task was running, Kafka Connect showed a healthy connector to the first check, the
  -- warehouse answered the second with its databases, and the sensor saw the replica within its limit.
  pub record IsGated {s : RunState} {w : Outside P} (r : Reach A P sla s w) : Type 0 where
    pub succeeded :
        All
          (λ t. s t ≡ success)
          (start ∷ check_cdc_connector ∷ check_clickhouse ∷ ingest ∷ wait_for_cdc ∷ dbt_deps
            ∷ dbt_source_freshness ∷ dbt_build_staging ∷ [])
    pub connector :
        During A P sla r check_cdc_connector (λ (w0 : Outside P). IsHealthy w0.connector)
    pub warehouse : During A P sla r check_clickhouse (λ (w0 : Outside P).
        (version : Json) × ((Health.check_clickhouse P w0.platform).0 ≡ ok version))
    pub caught_up :
        During A P sla r wait_for_cdc
          (λ (w0 : Outside P). (cdc_has_caught_up P sla w0.platform).0 ≡ ok true)

  gated :
      {s : RunState} {w : Outside P} (r : Reach A P sla s w)
      → IsSound A P sla (Done A P sla r) s
      → is_begun (s dbt_build_marts) ≡ true
      → IsGated r
  unfolding trigger_rule upstream
  gated r i b =
      let (staging, _) = i.settled dbt_build_marts b in
      let (freshness, _) = i.settled dbt_build_staging (ap is_begun staging) in
      let (deps, _) = i.settled dbt_source_freshness (ap is_begun freshness) in
      let (wait, _) = i.settled dbt_deps (ap is_begun deps) in
      let (ingested, _) = i.settled wait_for_cdc (ap is_begun wait) in
      let (connector, (clickhouse, _)) = i.settled ingest (ap is_begun ingested) in
      let (started, _) = i.settled check_clickhouse (ap is_begun clickhouse) in
      let (s0, w0, seen, run, (found, e)) = i.worked check_cdc_connector connector in
      record {
        succeeded = (
          started,
          (connector, (clickhouse, (ingested, (wait, (deps, (freshness, (staging, tt))))))),
        );
        connector = (s0, w0, seen, run, (assert_cdc_healthy_iff w0.connector).0 (found, e));
        warehouse = i.worked check_clickhouse clickhouse;
        caught_up = i.worked wait_for_cdc wait;
      }

  -- Whenever the build of the marts has been started, in any run and whatever failed in it: every task
  -- before the build has succeeded; and at a moment of the run in which the check was running, the
  -- connector was healthy, with all its tasks running; at one, the warehouse had its databases; and at
  -- one in which the sensor was running, the replica was within its limit.
  pub marts-IsGated :
      {s : RunState} {w : Outside P} (r : Reach A P sla s w)
      → is_begun (s dbt_build_marts) ≡ true
      → IsGated r
  marts-IsGated r = gated r (Reach-IsSound A P sla r)

  -- What the run's row says: success, and the marts were built on all of that; or failure, and some
  -- task has failed.
  abbrev pub Truthful : {s : RunState} {w : Outside P} → Reach A P sla s w → String → Type 0
  Truthful {s} r status =
      ((status ≡ "success") × (s dbt_build_marts ≡ success) × IsGated r)
      ⊎ ((status ≡ "failed") × ((t : TaskId) × (s t ≡ failed)))

  done_begun :
      (W : TaskId → Type 0) (s : RunState) (t : TaskId)
      → IsSound A P sla W s
      → trigger_rule t ≡ all_done
      → is_done (s t) ≡ true
      → is_begun (s t) ≡ true
  done_begun W s t i r d = elim (done_cases (s t) d) [
    | inl e ↦ ap is_begun e
    | inr b ↦ elim (broken_cases (s t) b) [
      | inl e ↦ ap is_begun e
      | inr e ↦ absurd (cc (sym r ∙ (i.doomed t e).0))
    ]
  ]

  -- The marts are done once the run is recorded.
  marts_done :
      (W : TaskId → Type 0) (s : RunState)
      → IsSound A P sla W s
      → is_begun (s record_run) ≡ true
      → is_done (s dbt_build_marts) ≡ true
  unfolding trigger_rule upstream
  marts_done W s i b =
      let (_, (published, _)) = i.settled record_run b in
      (i.settled dbt_results (done_begun W s dbt_results i refl published)).0

  recorded :
      {s : RunState} {w : Outside P} (r : Reach A P sla s w) (ingest_stats dbt_stats : Option Stats)
      (empty : Bool)
      → is_empty (failed_of all_tasks s) ≡ empty
      → IsSound A P sla (Done A P sla r) s
      → is_begun (s record_run) ≡ true
      → Truthful r (run_stats P ingest_stats dbt_stats (failed_of all_tasks s)).status
  unfolding run_stats
  recorded {s} r ingest_stats dbt_stats true e i b =
      rw e (elim (done_cases (s dbt_build_marts) (marts_done (Done A P sla r) s i b)) [
        | inl built ↦ inl (refl, built, gated r i (ap is_begun built))
        | inr broken ↦
            let (u, f) =
              failed_root (Done A P sla r) s (suc (number dbt_build_marts)) dbt_build_marts i
                (omega arith) broken in
            absurd (cc (of_all (λ t. is_failed (s t) ≡ false) (none_failed all_tasks s e) u, f))
      ])
  recorded {s} r ingest_stats dbt_stats false e i b = rw e (inr (refl, some_failed all_tasks s e))

  -- The row that `record_run` writes, in any run and whatever the tasks before it returned: it says
  -- success only if the marts were built, on a checked connector, a checked warehouse and a replica
  -- within its limit; and it says failed only if a task has failed. It says one of the two.
  pub record_run-Truthful :
      {s : RunState} {w : Outside P} (r : Reach A P sla s w) (ingest_stats dbt_stats : Option Stats)
      → is_begun (s record_run) ≡ true
      → Truthful r (run_stats P ingest_stats dbt_stats (failed_of all_tasks s)).status
  record_run-Truthful {s} r ingest_stats dbt_stats b =
      recorded r ingest_stats dbt_stats (is_empty (failed_of all_tasks s)) refl
        (Reach-IsSound A P sla r) b

  -- Once every task is done, the three that report have run: neither was given up, whatever failed.
  pub reports-run :
      {s : RunState} {w : Outside P} (r : Reach A P sla s w)
      → All (λ t. is_done (s t) ≡ true) all_tasks
      → All (λ t. is_begun (s t) ≡ true) (dbt_results ∷ record_run ∷ finish ∷ [])
  unfolding trigger_rule
  reports-run {s} r d =
      let i = Reach-IsSound A P sla r in
      let W = Done A P sla r in
      let at = of_all (λ t. is_done (s t) ≡ true) d in
      (
        done_begun W s dbt_results i refl (at dbt_results),
        (
          done_begun W s record_run i refl (at record_run),
          (done_begun W s finish i refl (at finish), tt),
        ),
      )
