-- ===== src/Tests/Linter.antt =====
-- The linter on a small repository.
use crypto_analytics_platfor.Base.Strings.{lower, strip}
use crypto_analytics_platfor.Pipeline.{◌>>=◌}
use crypto_analytics_platfor.Base.{◌≡◌, refl, true, false, String, List, [], ◌∷◌, none, some, map}
use crypto_analytics_platfor.Base.Result.{ok}
use crypto_analytics_platfor.Base.Texts.{str_eq}
use crypto_analytics_platfor.Json.{Json, str, array, items, object, Fields, field, end}
use crypto_analytics_platfor.Linter.{Repository, Lint, skipped}
use crypto_analytics_platfor.Linter.Compose.{required_services, healthy_needs, sorted_names}
use crypto_analytics_platfor.Linter.Entry.{main}
use crypto_analytics_platfor.Linter.Accepted.{Accepts, main-Accepts}
use crypto_analytics_platfor.Linter.Scan.{target_of, created_by}

finds_target :
    target_of "CREATE MATERIALIZED VIEW raw.v\n  to  Raw.symbols AS SELECT 1" ≡ some "Raw.symbols"
unfolding target_of str_eq
finds_target = refl

finds_created : created_by "create table IF NOT EXISTS raw.fx_rates (a Int8)" ≡ some "raw.fx_rates"
unfolding created_by str_eq
finds_created = refl

-- A word that ends in these letters is no target.
finds_none : target_of "SELECT INTO raw.symbols" ≡ none
unfolding target_of
finds_none = refl

abbrev alert : String → Json
alert name = object (
    field "alert" (str name) (
      field "labels" (object (field "severity" (str "info") end))
        (field "annotations" (object (field "summary" (str "what") end)) end)))

abbrev rules : Json
rules = object (
    field "groups"
      (array (
        items (
          object (
            field "rules"
              (array (
                items (
                  map alert (
                    "DebeziumConnectorDown" ∷ "CDCLagHigh" ∷ "ReplicationSlotBloat"
                    ∷ "IngestionStalled" ∷ []))))
              end)
          ∷ [])))
      end)

abbrev services_of : List String → Fields
services_of [] = end
services_of (name ∷ names) = field name (object end) (services_of names)

abbrev repository : String → Repository
repository schema = record {
  yaml_files = ("repo" ∷ "docker-compose.yml" ∷ []) ∷ [];
  json_files = ("repo" ∷ ".vscode" ∷ "settings.json" ∷ []) ∷ [];
  xml_files = [];
  parses = λ path. true;
  alerts_path = "alerts.yml" ∷ [];
  alerts = ok rules;
  dashboards = [];
  init_dir = "init" ∷ [];
  init_files = ("01.sql" ∷ [], schema) ∷ [];
  compose_path = "docker-compose.yml" ∷ [];
  compose = ok (object (field "services" (object (services_of required_services)) end));
  same = λ value values. ok false;
}

abbrev good : String
good =
    "-- The tables.\nCREATE TABLE raw.market_candles_1m (a Int8);CREATE TABLE raw.symbols (a Int8);CREATE TABLE raw.fx_rates (a Int8);CREATE TABLE raw.cdc_dead_letters (a Int8);CREATE MATERIALIZED VIEW raw.v TO raw.symbols AS SELECT 1"

abbrev bad : String
bad = "CREATE MATERIALIZED VIEW raw.v TO raw.symbols AS SELECT 1;CREATE TABLE raw.symbols (a Int8)"

abbrev nothing : Lint
nothing = record { failures = []; checked = 0 }

main-Accepts_example : Accepts (repository good) (main (repository good) nothing)
main-Accepts_example = main-Accepts (repository good) nothing

accepts_good : (main (repository good) nothing).0 ≡ ok 0
unfolding main ◌>>=◌ str_eq strip lower sorted_names
accepts_good = refl

refuses_bad : (main (repository bad) nothing).0 ≡ ok 1
unfolding main ◌>>=◌ str_eq strip lower sorted_names
refuses_bad = refl

-- In a checkout below a directory of such a name, every file is left out.
leaves_out_all : skipped ("home" ∷ "target" ∷ "repo" ∷ "docker-compose.yml" ∷ []) ≡ true
unfolding skipped str_eq
leaves_out_all = refl

abbrev needs : Fields
needs = field "kafka" (object (field "condition" (str "service_healthy") end)) (
    field "connect-init" (object (field "condition" (str "service_completed_successfully") end))
      (field "clickhouse" (object (field "condition" (str "service_healthy") end)) end))

sorts_needs : sorted_names (healthy_needs needs) ≡ "clickhouse" ∷ "kafka" ∷ []
unfolding sorted_names healthy_needs
sorts_needs = refl
