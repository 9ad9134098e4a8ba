-- ===== src/Linter/Entry.antt =====
-- `main` of the linter.
use crypto_analytics_platfor.Base.{ℕ, [], ◌∷◌}
use crypto_analytics_platfor.Base.Result.{ok}
use crypto_analytics_platfor.Linter.{Repository, Lint, check_yaml, check_json, check_xml}
use crypto_analytics_platfor.Pipeline.{Task, ◌>>◌}
use crypto_analytics_platfor.Linter.Compose.{check_compose}
use crypto_analytics_platfor.Linter.Documents.{check_alerts, check_dashboards}
use crypto_analytics_platfor.Linter.Schema.{check_clickhouse_init_order}

abbrev pub verdict : Lint → ℕ
verdict s = elim s.failures [ [] ↦ 0 | problem ∷ problems ↦ 1 ]

-- `main`: its exit code.
unfoldable pub main : Repository → Task Lint ℕ
unfolding check_yaml check_json check_xml check_alerts check_dashboards check_clickhouse_init_order
    check_compose
main r = do
  check_yaml r
  check_json r
  check_xml r
  check_alerts r
  check_dashboards r.dashboards
  check_clickhouse_init_order r
  check_compose r
  λ s. (ok (verdict s), s)
