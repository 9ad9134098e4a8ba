-- ===== src/Linter/Compose.antt =====
-- `check_compose`.
use crypto_analytics_platfor.Base.{
  Bool, true, false, String, List, [], ◌∷◌, ◌++◌, none, some, if◌then◌else◌,
}
use crypto_analytics_platfor.Base.Result
use crypto_analytics_platfor.Base.Result.{Result, ok, err, type_error, attribute_error}
use crypto_analytics_platfor.Base.Texts.{codes, str_eq}
use crypto_analytics_platfor.Json.{Json, null, object, Fields, end, field, get}
use crypto_analytics_platfor.Json.Access.{get_or, iterate, is_text}
use crypto_analytics_platfor.Linter.{
  FilePath, Repository, Lint, report_problem, report_if, missing_services, no_healthcheck,
}
use crypto_analytics_platfor.Pipeline.{Task, ◌>>=◌, ◌>>◌, pure, lift}
use crypto_analytics_platfor.Linter.Documents.{some_missing}
use crypto_analytics_platfor.Pipeline.Reconciliation.{lower_codes}

-- `for name, spec in depends.items()`
unfoldable pub healthy_needs : Fields → List String
unfolding is_text
healthy_needs end = []
healthy_needs (field name (object spec) rest) =
    let others = healthy_needs rest in
    elim (get "condition" spec) [
      | some condition ↦ if is_text condition "service_healthy" then name ∷ others else others
      | none ↦ others
    ]
healthy_needs (field name _ rest) = healthy_needs rest

abbrev pub needs_of : Json → List String
needs_of (object depends) = healthy_needs depends
needs_of _ = []

-- `for service in services.values()`
unfoldable pub depended_on : Fields → Result (List String)
unfolding get_or healthy_needs
depended_on end = ok []
depended_on (field name service rest) =
    let later = depended_on rest in
    Result.◌>>=◌ (get_or service "depends_on" null)
      λ depends. Result.◌>>=◌ later λ others. ok (needs_of depends ++ others)

-- `name in services and "healthcheck" not in services[name]`, for a service that is a dictionary.
unfoldable pub lacks_healthcheck : Fields → String → Bool
lacks_healthcheck services name = elim (get name services) [
  | some (object service) ↦ elim (get "healthcheck" service) [ some check ↦ false | none ↦ true ]
  | _ ↦ false
]

unfoldable pub check_needs : FilePath → Fields → List String → Task Lint (Unit {0})
unfolding lacks_healthcheck report_problem
check_needs path services [] = pure tt
check_needs path services (name ∷ names) = do
  report_if (lacks_healthcheck services name) path no_healthcheck
  check_needs path services names

-- `sorted` of a set: by code points, and each name once.
unfoldable pub insert_name : String → List String → List String
unfolding str_eq
insert_name name [] = name ∷ []
insert_name name (other ∷ names) =
    let later = insert_name name names in
    if str_eq other name
    then other ∷ names
    else if lower_codes (codes name) (codes other)
    then name ∷ other ∷ names
    else other ∷ later

unfoldable pub sorted_names : List String → List String
unfolding insert_name
sorted_names [] = []
sorted_names (name ∷ names) = insert_name name (sorted_names names)

abbrev pub required_services : List String
required_services =
    "postgres" ∷ "kafka" ∷ "connect" ∷ "connect-init" ∷ "clickhouse" ∷ "ingestion"
    ∷ "airflow-scheduler" ∷ "airflow-webserver" ∷ "prometheus" ∷ "grafana" ∷ "exporter" ∷ []

-- What has `values()`.
abbrev pub values_of : Json → Result Fields
values_of (object fs) = ok fs
values_of _ = err attribute_error

unfoldable pub check_compose : Repository → Task Lint (Unit {0})
unfolding get_or iterate is_text report_problem depended_on check_needs
check_compose r = do
  compose ← lift r.compose
  services ← lift (get_or compose "services" (object end))
  names ← lift (iterate services)
  report_if (some_missing required_services names) r.compose_path missing_services
  listed ← lift (values_of services)
  needs ← lift (depended_on listed)
  check_needs r.compose_path listed (sorted_names needs)
