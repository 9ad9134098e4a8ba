-- ===== src/Linter.antt =====
-- scripts/validate_configs.py: what the linter of the configuration files reports, and its exit code.
pub mod Scan
pub mod Documents
pub mod Schema
pub mod Compose
pub mod Entry
pub mod Order
pub mod Quiet
pub mod Accepted
use crypto_analytics_platfor.Base.{
  ℕ, suc, Bool, true, false, not, ◌&&◌, ◌||◌, String, List, [], ◌∷◌, ◌++◌, Option, none, some,
  if◌then◌else◌,
}
use crypto_analytics_platfor.Base.Result
use crypto_analytics_platfor.Base.Result.{Result, ok, err, type_error, attribute_error}
use crypto_analytics_platfor.Base.Strings.{elem}
use crypto_analytics_platfor.Base.Texts.{codes, str_eq}
use crypto_analytics_platfor.Json.{Json}
use crypto_analytics_platfor.Json.Access.{get_or, iterate, is_text, truthy}
use crypto_analytics_platfor.Pipeline.{Task, ◌>>=◌, ◌>>◌, pure, lift}

-- The parts of a path; those of the files of the repository begin with the parts of its root.
abbrev pub FilePath : Type 0
FilePath = List String

pub data Problem : Type 0 where
  invalid_yaml invalid_json invalid_xml duplicate_alert no_summary no_severity no_runbook
        missing_alerts no_uid no_title no_datasource no_queries unknown_target missing_tables
        missing_services no_healthcheck :
      Problem

pub record Report : Type 0 where
  pub path : FilePath
  pub problem : Problem

-- `failures` and `checked`
pub record Lint : Type 0 where
  pub failures : List Report
  pub checked : ℕ

-- What the linter finds: the files in sorted order, which of them a parser takes, and the documents that
-- it reads. `same` is Python's comparison of a value with the members of a set; a list or a dictionary
-- raises a TypeError.
pub record Repository : Type 0 where
  pub yaml_files : List FilePath
  pub json_files : List FilePath
  pub xml_files : List FilePath
  pub parses : FilePath → Bool
  pub alerts_path : FilePath
  pub alerts : Result Json
  pub dashboards : List (FilePath × Result Json)
  pub init_dir : FilePath
  pub init_files : List (FilePath × String)
  pub compose_path : FilePath
  pub compose : Result Json
  pub same : Json → List Json → Result Bool

-- SKIP_DIRS
abbrev pub skip_dirs : List String
skip_dirs = ".git" ∷ ".venv" ∷ "venv" ∷ "target" ∷ "dbt_packages" ∷ "node_modules" ∷ []

-- `any(part in SKIP_DIRS for part in path.parts)`
unfoldable pub skipped : FilePath → Bool
unfolding elem
skipped [] = false
skipped (part ∷ parts) = elem part skip_dirs || skipped parts

unfoldable pub report_problem : FilePath → Problem → Task Lint (Unit {0})
report_problem path problem s =
    (ok tt, record s { failures = s.failures ++ (record { path = path; problem = problem } ∷ []) })

-- `ok(path)`
unfoldable pub passed : Task Lint (Unit {0})
passed s = (ok tt, record s { checked = suc s.checked })

abbrev pub report_if : Bool → FilePath → Problem → Task Lint (Unit {0})
report_if test path problem = if test then report_problem path problem else pure tt

-- The loop of the three checks of syntax, over the files that are not left out.
unfoldable pub check_files :
    (left_out parses : FilePath → Bool) → Problem → List FilePath → Task Lint (Unit {0})
unfolding report_problem passed
check_files left_out parses problem [] = pure tt
check_files left_out parses problem (path ∷ paths) =
    if left_out path
    then check_files left_out parses problem paths
    else ((if parses path then passed else report_problem path problem)
        >> check_files left_out parses problem paths)

unfoldable pub check_yaml : Repository → Task Lint (Unit {0})
unfolding check_files skipped
check_yaml r = check_files skipped r.parses invalid_yaml r.yaml_files

unfoldable pub check_json : Repository → Task Lint (Unit {0})
unfolding check_files skipped elem
check_json r =
    check_files (λ path. skipped path || elem ".vscode" path) r.parses invalid_json r.json_files

unfoldable pub check_xml : Repository → Task Lint (Unit {0})
unfolding check_files
check_xml r = check_files (λ path. false) r.parses invalid_xml r.xml_files
