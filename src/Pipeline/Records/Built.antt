-- ===== src/Pipeline/Records/Built.antt =====
-- What a recorded run says of the models and the tests.
use mathlib.Core.Path.{subst}
use crypto_analytics_platfor.Base.{
  ℕ, ◌+◌, ◌≤◌, ◌≡◌, refl, sym, ap, ◌∙◌, String, List, Option, some, length, arith,
}
use crypto_analytics_platfor.Base.Result.{ok, ok-injective}
use crypto_analytics_platfor.Base.Texts.{str_eq}
use crypto_analytics_platfor.Json.{Json}
use crypto_analytics_platfor.Pipeline.{Platform}
use crypto_analytics_platfor.Pipeline.Dbt.{Counts, Stats, stats_of, results_of, publish_dbt_results}
use crypto_analytics_platfor.Pipeline.Dbt.Counted.{publish_dbt_results-IsPublished, total}
use crypto_analytics_platfor.Pipeline.Records.{stat, RunStats, run_stats}

module _ (P : Platform) (run_id : String) (failed : List String) (ingest_stats : Option Stats) where
  open P use {State}

  -- The record of a run whose results were published: no model counts as built, and the tests that passed
  -- and failed are no more than the results.
  abbrev pub Recorded : ℕ → RunStats → Type 0
  Recorded n r = (r.models_built ≡ 0) × (r.tests_passed + r.tests_failed ≤ n)

  recorded :
      (published n : ℕ) (c : Counts)
      → total c ≡ n
      → Recorded n (run_stats P ingest_stats (some (stats_of published c)) failed)
  unfolding run_stats stat str_eq
  recorded published n c h = (refl, omega (arith, h))

  -- Whatever dbt has built, the run is recorded with no model built, since `publish_dbt_results` gives
  -- its counts no entry "success"; and the tests that the run is recorded with, passed or failed, are no
  -- more than the results of the file.
  pub run_stats-Recorded :
      (payload : Json) (results : List Json) (s t : State) {stats : Stats}
      → results_of payload ≡ ok results
      → publish_dbt_results P run_id (some payload) s ≡ (ok stats, t)
      → Recorded (length results) (run_stats P ingest_stats (some stats) failed)
  run_stats-Recorded payload results s t e h =
      let i = publish_dbt_results-IsPublished P run_id payload s t h in
      subst (λ stats. Recorded (length results) (run_stats P ingest_stats (some stats) failed))
        (sym i.says)
        (recorded (length i.rows) (length results) i.counts
          (i.counted ∙ ap length (ok-injective _ _ (sym i.listed ∙ e))))
