-- ===== src/Linter/Quiet.antt =====
-- The checks of the alert rules, the dashboards and the compose file take no report back.
use crypto_analytics_platfor.Base.{inl, inr, not, String, List, [], ◌∷◌, Bool-cases}
use crypto_analytics_platfor.Base.Result.{Result}
use crypto_analytics_platfor.Json.{Json, null, array, nil}
use crypto_analytics_platfor.Json.Access.{get_or, truthy}
use crypto_analytics_platfor.Linter.{
  FilePath, Repository, duplicate_alert, no_summary, no_severity, no_runbook, missing_alerts,
  no_uid, no_title, no_datasource, no_queries, missing_services, no_healthcheck, report_if,
}
use crypto_analytics_platfor.Linter.Documents.{
  check_rule, check_rules, check_groups, check_alerts, check_panels, check_dashboard,
  check_dashboards,
}
use crypto_analytics_platfor.Linter.Compose.{
  lacks_healthcheck, check_needs, sorted_names, check_compose,
}
use crypto_analytics_platfor.Linter.Order.{Calm, bind-Calm, report_if-Calm}
use crypto_analytics_platfor.Pipeline.{lift}

module _ (r : Repository) where
  check_rule-Calm : (names : List Json) (rule : Json) → Calm (check_rule r names rule)
  unfolding check_rule
  check_rule-Calm names rule =
      bind-Calm (lift (get_or rule "alert" null)) _ (λ s h. h)
        λ name s h. elim (Bool-cases (truthy name)) [
          | inr e ↦ rw e at h
          | inl e ↦
              bind-Calm (lift (r.same name names)) _ (λ s h. h)
                (λ known.
                  bind-Calm (report_if known r.alerts_path duplicate_alert) _
                    (report_if-Calm known r.alerts_path duplicate_alert)
                    λ u.
                      bind-Calm _ _ (λ s h. h)
                        λ annotations.
                          bind-Calm _ _ (λ s h. h)
                            λ summary.
                              bind-Calm (report_if (not (truthy summary)) r.alerts_path no_summary)
                                _ (report_if-Calm (not (truthy summary)) r.alerts_path no_summary)
                                λ u.
                                  bind-Calm _ _ (λ s h. h)
                                    λ labels.
                                      bind-Calm _ _ (λ s h. h)
                                        λ severity.
                                          bind-Calm
                                            (report_if (not (truthy severity)) r.alerts_path
                                              no_severity)
                                            _
                                            (report_if-Calm (not (truthy severity)) r.alerts_path
                                              no_severity)
                                            λ u.
                                              bind-Calm _ _ (λ s h. h)
                                                λ actionable.
                                                  bind-Calm _ _ (λ s h. h)
                                                    λ runbook.
                                                      bind-Calm _ _
                                                        (report_if-Calm _ r.alerts_path no_runbook)
                                                        λ u s h. h)
                s (rw e at h)
        ]

  check_rules-Calm : (names rules : List Json) → Calm (check_rules r names rules)
  unfolding check_rules
  check_rules-Calm names [] s h = h
  check_rules-Calm names (rule ∷ rules) s h =
      bind-Calm (check_rule r names rule) _ (check_rule-Calm names rule)
        (λ seen. check_rules-Calm seen rules) s h

  check_groups-Calm : (names groups : List Json) → Calm (check_groups r names groups)
  unfolding check_groups
  check_groups-Calm names [] s h = h
  check_groups-Calm names (group ∷ groups) s h =
      bind-Calm (lift (get_or group "rules" (array nil))) _ (λ s h. h)
        (λ rules.
          bind-Calm _ _ (λ s h. h)
            λ listed.
              bind-Calm (check_rules r names listed) _ (check_rules-Calm names listed)
                λ seen. check_groups-Calm seen groups)
        s h

  pub check_alerts-Calm : Calm (check_alerts r)
  unfolding check_alerts
  check_alerts-Calm =
      bind-Calm (lift r.alerts) _ (λ s h. h)
        λ rules.
          bind-Calm _ _ (λ s h. h)
            λ groups.
              bind-Calm _ _ (λ s h. h)
                λ listed.
                  bind-Calm (check_groups r [] listed) _ (check_groups-Calm [] listed)
                    λ names. report_if-Calm _ r.alerts_path missing_alerts

  check_panels-Calm : (path : FilePath) (panels : List Json) → Calm (check_panels path panels)
  unfolding check_panels
  check_panels-Calm path [] s h = h
  check_panels-Calm path (panel ∷ panels) s h =
      bind-Calm (lift (get_or panel "datasource" null)) _ (λ s h. h)
        (λ datasource.
          bind-Calm (report_if (not (truthy datasource)) path no_datasource) _
            (report_if-Calm (not (truthy datasource)) path no_datasource)
            λ u.
              bind-Calm _ _ (λ s h. h)
                λ targets.
                  bind-Calm (report_if (not (truthy targets)) path no_queries) _
                    (report_if-Calm (not (truthy targets)) path no_queries)
                    λ v. check_panels-Calm path panels)
        s h

  check_dashboard-Calm :
      (path : FilePath) (dashboard : Json) → Calm (check_dashboard path dashboard)
  unfolding check_dashboard
  check_dashboard-Calm path dashboard =
      bind-Calm (lift (get_or dashboard "uid" null)) _ (λ s h. h)
        λ uid.
          bind-Calm (report_if (not (truthy uid)) path no_uid) _
            (report_if-Calm (not (truthy uid)) path no_uid)
            λ u.
              bind-Calm _ _ (λ s h. h)
                λ title.
                  bind-Calm (report_if (not (truthy title)) path no_title) _
                    (report_if-Calm (not (truthy title)) path no_title)
                    λ v.
                      bind-Calm _ _ (λ s h. h)
                        λ panels.
                          bind-Calm _ _ (λ s h. h)
                            λ listed.
                              bind-Calm _ _ (λ s h. h) λ chosen. check_panels-Calm path chosen

  pub check_dashboards-Calm :
      (files : List (FilePath × Result Json)) → Calm (check_dashboards files)
  unfolding check_dashboards
  check_dashboards-Calm [] s h = h
  check_dashboards-Calm ((path, read) ∷ files) s h =
      bind-Calm (lift read) _ (λ s h. h)
        (λ dashboard.
          bind-Calm (check_dashboard path dashboard) _ (check_dashboard-Calm path dashboard)
            λ u. check_dashboards-Calm files)
        s h

  check_needs-Calm :
      (path : FilePath) (services : _) (names : List String)
      → Calm (check_needs path services names)
  unfolding check_needs
  check_needs-Calm path services [] s h = h
  check_needs-Calm path services (name ∷ names) s h =
      bind-Calm (report_if (lacks_healthcheck services name) path no_healthcheck) _
        (report_if-Calm (lacks_healthcheck services name) path no_healthcheck)
        (λ u. check_needs-Calm path services names) s h

  pub check_compose-Calm : Calm (check_compose r)
  unfolding check_compose
  check_compose-Calm =
      bind-Calm (lift r.compose) _ (λ s h. h)
        λ compose.
          bind-Calm _ _ (λ s h. h)
            λ services.
              bind-Calm _ _ (λ s h. h)
                λ names. bind-Calm _ _ (report_if-Calm _ r.compose_path missing_services) λ u.
                  bind-Calm _ _ (λ s h. h)
                    λ listed.
                      bind-Calm _ _ (λ s h. h)
                        λ needs. check_needs-Calm r.compose_path listed (sorted_names needs)
