-- ===== src/Linter/Schema.antt =====
-- `check_clickhouse_init_order`.
use crypto_analytics_platfor.Base.{Bool, false, not, ◌||◌, String, List, [], ◌∷◌, none, some}
use crypto_analytics_platfor.Base.Strings.{elem}
use crypto_analytics_platfor.Linter.{
  FilePath, Repository, Lint, report_problem, report_if, unknown_target, missing_tables,
}
use crypto_analytics_platfor.Pipeline.{Task, ◌>>=◌, ◌>>◌, pure}
use crypto_analytics_platfor.Linter.Scan.{target_of, created_by, lower_name}
use crypto_analytics_platfor.Seed.{statements}

-- Whether a statement targets a table that nothing has created so far.
unfoldable pub is_early : List String → String → Bool
unfolding target_of elem
is_early created statement = elim (target_of statement) [
  | some name ↦ not (elem (lower_name name) created)
  | none ↦ false
]

-- The tables created after a statement.
unfoldable pub created_after : List String → String → List String
unfolding created_by
created_after created statement = elim (created_by statement) [
  | some name ↦ lower_name name ∷ created
  | none ↦ created
]

-- The loop over the statements of a file: the tables created by its end.
unfoldable pub check_statements : FilePath → List String → List String → Task Lint (List String)
unfolding is_early created_after report_problem
check_statements path created [] = pure created
check_statements path created (statement ∷ rest) = do
  report_if (is_early created statement) path unknown_target
  check_statements path (created_after created statement) rest

unfoldable pub check_init_files : List (FilePath × String) → List String → Task Lint (List String)
unfolding check_statements statements
check_init_files [] created = pure created
check_init_files ((path, text) ∷ files) created = do
  more ← check_statements path created (statements text)
  check_init_files files more

abbrev pub expected_tables : List String
expected_tables =
    "raw.market_candles_1m" ∷ "raw.symbols" ∷ "raw.fx_rates" ∷ "raw.cdc_dead_letters" ∷ []

-- `expected - created`: whether something is left.
unfoldable pub lacks : List String → List String → Bool
unfolding elem
lacks [] created = false
lacks (table ∷ tables) created = not (elem table created) || lacks tables created

unfoldable pub check_clickhouse_init_order : Repository → Task Lint (Unit {0})
unfolding check_init_files lacks report_problem
check_clickhouse_init_order r = do
  created ← check_init_files r.init_files []
  report_if (lacks expected_tables created) r.init_dir missing_tables
