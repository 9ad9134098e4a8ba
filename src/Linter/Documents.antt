-- ===== src/Linter/Documents.antt =====
-- `check_alerts` and `check_dashboards`.
use crypto_analytics_platfor.Base.{
  Bool, false, not, ◌&&◌, ◌||◌, String, List, [], ◌∷◌, if◌then◌else◌,
}
use crypto_analytics_platfor.Base.Result
use crypto_analytics_platfor.Base.Result.{Result, ok, err, type_error, attribute_error}
use crypto_analytics_platfor.Json.{Json, null, array, object, nil, end}
use crypto_analytics_platfor.Json.Access.{get_or, iterate, is_text, truthy}
use crypto_analytics_platfor.Linter.{
  FilePath, Repository, Lint, report_problem, report_if, duplicate_alert, no_summary, no_severity,
  no_runbook, missing_alerts, no_uid, no_title, no_datasource, no_queries,
}
use crypto_analytics_platfor.Pipeline.{Task, ◌>>=◌, ◌>>◌, pure, lift}

-- `value in {"critical", "warning"}`
unfoldable pub is_actionable : Json → Result Bool
unfolding is_text
is_actionable (array xs) = err type_error
is_actionable (object fs) = err type_error
is_actionable value = ok (is_text value "critical" || is_text value "warning")

-- The body of the loop over the rules, from the names seen before: the names seen after it.
unfoldable pub check_rule : Repository → List Json → Json → Task Lint (List Json)
unfolding report_problem get_or truthy is_actionable
check_rule r names rule = do
  name ← lift (get_or rule "alert" null)
  if truthy name
      then (do
        known ← lift (r.same name names)
        report_if known r.alerts_path duplicate_alert
        annotations ← lift (get_or rule "annotations" (object end))
        summary ← lift (get_or annotations "summary" null)
        report_if (not (truthy summary)) r.alerts_path no_summary
        labels ← lift (get_or rule "labels" (object end))
        severity ← lift (get_or labels "severity" null)
        report_if (not (truthy severity)) r.alerts_path no_severity
        actionable ← lift (is_actionable severity)
        runbook ← lift (get_or annotations "runbook" null)
        report_if (actionable && not (truthy runbook)) r.alerts_path no_runbook
        pure (name ∷ names))
      else pure names

unfoldable pub check_rules : Repository → List Json → List Json → Task Lint (List Json)
unfolding check_rule
check_rules r names [] = pure names
check_rules r names (rule ∷ rules) = check_rule r names rule >>= λ seen. check_rules r seen rules

unfoldable pub check_groups : Repository → List Json → List Json → Task Lint (List Json)
unfolding check_rules get_or iterate
check_groups r names [] = pure names
check_groups r names (group ∷ groups) = do
  rules ← lift (get_or group "rules" (array nil))
  listed ← lift (iterate rules)
  seen ← check_rules r names listed
  check_groups r seen groups

-- `checked_names - names`: whether something is left.
abbrev pub some_missing : List String → List Json → Bool
some_missing [] names = false
some_missing (wanted ∷ others) names = not (has_text wanted names) || some_missing others names
  where
    has_text : String → List Json → Bool
    has_text s [] = false
    has_text s (name ∷ names) = is_text name s || has_text s names

unfoldable pub check_alerts : Repository → Task Lint (Unit {0})
unfolding check_groups report_problem is_text
check_alerts r = do
  rules ← lift r.alerts
  groups ← lift (get_or rules "groups" (array nil))
  listed ← lift (iterate groups)
  names ← check_groups r [] listed
  report_if
      (some_missing
        ("DebeziumConnectorDown" ∷ "CDCLagHigh" ∷ "ReplicationSlotBloat" ∷ "IngestionStalled" ∷ [])
        names)
      r.alerts_path missing_alerts

-- A panel that is neither a row nor a text.
unfoldable pub is_data_panel : Json → Result Bool
unfolding is_text
is_data_panel (array xs) = err type_error
is_data_panel (object fs) = err type_error
is_data_panel kind = ok (not (is_text kind "row" || is_text kind "text"))

-- `[p for p in panels if p.get("type") not in {"row", "text"}]`
unfoldable pub data_panels : List Json → Result (List Json)
unfolding is_data_panel get_or
data_panels [] = ok []
data_panels (panel ∷ panels) =
    let later = data_panels panels in
    Result.◌>>=◌ (get_or panel "type" null) λ kind.
      Result.◌>>=◌ (is_data_panel kind)
        λ chosen. Result.◌>>=◌ later λ others. ok (if chosen then panel ∷ others else others)

unfoldable pub check_panels : FilePath → List Json → Task Lint (Unit {0})
unfolding report_problem get_or truthy
check_panels path [] = pure tt
check_panels path (panel ∷ panels) = do
  datasource ← lift (get_or panel "datasource" null)
  report_if (not (truthy datasource)) path no_datasource
  targets ← lift (get_or panel "targets" null)
  report_if (not (truthy targets)) path no_queries
  check_panels path panels

unfoldable pub check_dashboard : FilePath → Json → Task Lint (Unit {0})
unfolding report_problem get_or truthy iterate data_panels check_panels
check_dashboard path dashboard = do
  uid ← lift (get_or dashboard "uid" null)
  report_if (not (truthy uid)) path no_uid
  title ← lift (get_or dashboard "title" null)
  report_if (not (truthy title)) path no_title
  panels ← lift (get_or dashboard "panels" (array nil))
  listed ← lift (iterate panels)
  chosen ← lift (data_panels listed)
  check_panels path chosen

unfoldable pub check_dashboards : List (FilePath × Result Json) → Task Lint (Unit {0})
unfolding check_dashboard
check_dashboards [] = pure tt
check_dashboards ((path, read) ∷ files) = do
  dashboard ← lift read
  check_dashboard path dashboard
  check_dashboards files
