-- ===== src/Linter/Accepted.antt =====
-- What an exit code of 0 of the linter says of the repository.
use mathlib.Core.Path.{subst}
use crypto_analytics_platfor.Base.{
  ◌≡◌, refl, sym, ◌∙◌, ◌⊎◌, inl, inr, true, false, not, ◌||◌, String, List, [], ◌∷◌, ◌++◌, Option,
  some, none, All, Bool-cases, ℕ, zero,
}
use crypto_analytics_platfor.Base.Result.{Result, ok, err}
use crypto_analytics_platfor.Base.Strings.{elem}
use crypto_analytics_platfor.Base.Texts.{str_eq, str_eq_iff}
use crypto_analytics_platfor.Linter.Scan.{target_of, created_by, lower_name}
use crypto_analytics_platfor.Linter.{
  FilePath, Repository, Lint, Report, missing_tables, skipped, check_yaml, check_json, check_xml,
}
use crypto_analytics_platfor.Linter.Documents.{check_alerts, check_dashboards}
use crypto_analytics_platfor.Linter.Schema.{
  is_early, created_after, check_init_files, expected_tables, lacks, check_clickhouse_init_order,
}
use crypto_analytics_platfor.Linter.Compose.{check_compose}
use crypto_analytics_platfor.Linter.Entry.{verdict, main}
use crypto_analytics_platfor.Linter.Quiet.{
  check_alerts-Calm, check_dashboards-Calm, check_compose-Calm,
}
use crypto_analytics_platfor.Linter.Order.{
  Calm, Tells, bind-Calm, bind-Tells, any-Tells, report_if-Calm, report_if-Tells, Tells-mono,
  Parsed, check_files-Calm, check_files-Tells, NoneEarly, all_created, all_statements,
  check_init_files-Calm, check_init_files-Tells,
}
use crypto_analytics_platfor.Pipeline.{Task, ◌>>=◌}
use crypto_analytics_platfor.Pipeline.Dag.{Any}
use crypto_analytics_platfor.Pipeline.Rules.{Ensures, then-Ensures}

-- The statement creates the table of a name in lower case.
abbrev pub Creates : String → String → Type 0
Creates table statement =
    (made : String) × (created_by statement ≡ some made) × (lower_name made ≡ table)

created_step :
    (table st : String) (created : List String) (o : Option String)
    → created_by st ≡ o
    → elem table (elim o [ some name ↦ lower_name name ∷ created | none ↦ created ]) ≡ true
    → (elem table created ≡ true) ⊎ Creates table st
unfolding elem
created_step table st created none e h = inl h
created_step table st created (some name) e h = elim (Bool-cases (str_eq table (lower_name name))) [
  | inl same ↦ inr (name, e, sym ((str_eq_iff table (lower_name name)).0 same))
  | inr other ↦ inl (rw other at h)
]

-- A table that is there after some statements was there before, or one of them creates it.
created_from :
    (table : String) (created sts : List String)
    → elem table (all_created created sts) ≡ true
    → (elem table created ≡ true) ⊎ Any (Creates table) sts
unfolding created_after
created_from table created [] h = inl h
created_from table created (st ∷ sts) h =
    elim (created_from table (created_after created st) sts h) [
      | inr later ↦ inr (inr later)
      | inl now ↦ elim (created_step table st created (created_by st) refl now) [
        | inl before ↦ inl before
        | inr here ↦ inr (inl here)
      ]
    ]

early_at :
    (created before rest : List String) (st : String)
    → NoneEarly created (before ++ (st ∷ rest))
    → is_early (all_created created before) st ≡ false
early_at created [] rest st h = h.0
early_at created (x ∷ before) rest st h = early_at (created_after created x) before rest st h.1

-- Wherever a statement targets a table, a statement before it creates the table.
pub InOrder : List String → Type 0
InOrder sts =
    (before rest : List String) (st name : String)
    → sts ≡ before ++ (st ∷ rest)
    → target_of st ≡ some name
    → Any (Creates (lower_name name)) before

held_of :
    (created : List String) (name : String) (o : Option String)
    → o ≡ some name
    → (elim o [ some n ↦ not (elem (lower_name n) created) | none ↦ false ]) ≡ false
    → elem (lower_name name) created ≡ true
held_of created name none e h = absurd (cc)
held_of created name (some n) e h = elim (Bool-cases (elem (lower_name n) created)) [
  | inl t ↦ subst (λ (x : String). elem (lower_name x) created ≡ true) (some-injective e) t
  | inr f ↦ absurd (cc (rw f at h))
]
  where
    some-injective : {a b : String} → some a ≡ some b → a ≡ b
    some-injective h = cc

held :
    (created : List String) (st name : String)
    → target_of st ≡ some name
    → is_early created st ≡ false
    → elem (lower_name name) created ≡ true
unfolding is_early
held created st name e h = held_of created name (target_of st) e h

not_before : (table : String) {A : Type 0} → (elem table [] ≡ true) ⊎ A → A
unfolding elem
not_before table (inl h) = absurd (cc)
not_before table (inr a) = a

NoneEarly-InOrder : (sts : List String) → NoneEarly [] sts → InOrder sts
unfolding InOrder
NoneEarly-InOrder sts h before rest st name e t = not_before (lower_name name) (
    created_from (lower_name name) [] before (
      held (all_created [] before) st name t
        (early_at [] before rest st (subst (NoneEarly []) e h))))

lacks-Created :
    (tables sts : List String)
    → lacks tables (all_created [] sts) ≡ false
    → All (λ table. Any (Creates table) sts) tables
unfolding lacks
lacks-Created [] sts h = tt
lacks-Created (table ∷ tables) sts h = elim (Bool-cases (elem table (all_created [] sts))) [
  | inl e ↦ (not_before table (created_from table [] sts e), lacks-Created tables sts (rw e at h))
  | inr e ↦ absurd (cc (rw e at h))
]

module _ (r : Repository) where
  -- The schema that the init files leave: every target is created before it is used, and the tables
  -- that the pipeline lands in are created.
  abbrev pub SchemaHolds : Type 0
  SchemaHolds =
      InOrder (all_statements r.init_files)
      × All (λ table. Any (Creates table) (all_statements r.init_files)) expected_tables

  order-Calm : Calm (check_clickhouse_init_order r)
  unfolding check_clickhouse_init_order
  order-Calm =
      bind-Calm (check_init_files r.init_files []) _ (check_init_files-Calm r.init_files [])
        λ created. report_if-Calm (lacks expected_tables created) r.init_dir missing_tables

  order-Tells : (s : Lint) → Tells (λ u. SchemaHolds) (check_clickhouse_init_order r s)
  unfolding check_clickhouse_init_order
  order-Tells s =
      let sts = all_statements r.init_files in
      bind-Tells (λ more. NoneEarly [] sts × (more ≡ all_created [] sts)) (λ u. SchemaHolds)
        (check_init_files r.init_files []) _ s (check_init_files-Tells r.init_files [] s)
        (λ created. report_if-Calm (lacks expected_tables created) r.init_dir missing_tables)
        λ created (early, same) s'.
          Tells-mono (λ u. lacks expected_tables created ≡ false) (λ u. SchemaHolds) _
            (λ u h. (
              NoneEarly-InOrder sts early,
              lacks-Created expected_tables sts
                  (subst (λ (c : List String). lacks expected_tables c ≡ false) same h),
            ))
            (report_if-Tells (lacks expected_tables created) r.init_dir missing_tables s')

  -- What the repository is like where the linter has reported nothing.
  pub record IsAccepted : Type 0 where
    pub yaml : Parsed skipped r.parses r.yaml_files
    pub json : Parsed (λ path. skipped path || elem ".vscode" path) r.parses r.json_files
    pub xml : All (λ path. r.parses path ≡ true) r.xml_files
    pub schema : SchemaHolds

  -- The checks of `main` from one of them on.
  abbrev From : Type 0
  From = Unit {0} → Task Lint ℕ

  abbrev at_end : From
  at_end u s = (ok (verdict s), s)

  abbrev from_compose : From
  from_compose u = check_compose r >>= at_end

  abbrev from_order : From
  from_order u = check_clickhouse_init_order r >>= from_compose

  abbrev from_dashboards : From
  from_dashboards u = check_dashboards r.dashboards >>= from_order

  abbrev from_alerts : From
  from_alerts u = check_alerts r >>= from_dashboards

  abbrev from_xml : From
  from_xml u = check_xml r >>= from_alerts

  abbrev from_json : From
  from_json u = check_json r >>= from_xml

  compose-Calm : (u : Unit {0}) → Calm (from_compose u)
  compose-Calm u = bind-Calm (check_compose r) at_end (check_compose-Calm r) λ v s h. h

  from_order-Calm : (u : Unit {0}) → Calm (from_order u)
  from_order-Calm u = bind-Calm (check_clickhouse_init_order r) from_compose order-Calm compose-Calm

  from_dashboards-Calm : (u : Unit {0}) → Calm (from_dashboards u)
  from_dashboards-Calm u =
      bind-Calm (check_dashboards r.dashboards) from_order (check_dashboards-Calm r r.dashboards)
        from_order-Calm

  from_alerts-Calm : (u : Unit {0}) → Calm (from_alerts u)
  from_alerts-Calm u =
      bind-Calm (check_alerts r) from_dashboards (check_alerts-Calm r) from_dashboards-Calm

  from_xml-Calm : (u : Unit {0}) → Calm (from_xml u)
  unfolding check_xml
  from_xml-Calm u =
      bind-Calm (check_xml r) from_alerts (check_files-Calm (λ path. false) r.parses _ r.xml_files)
        from_alerts-Calm

  from_json-Calm : (u : Unit {0}) → Calm (from_json u)
  unfolding check_json
  from_json-Calm u =
      bind-Calm (check_json r) from_xml
        (check_files-Calm (λ path. skipped path || elem ".vscode" path) r.parses _ r.json_files)
        from_xml-Calm

  no_file_left :
      (paths : List FilePath)
      → Parsed (λ path. false) r.parses paths
      → All (λ path. r.parses path ≡ true) paths
  no_file_left [] h = tt
  no_file_left (path ∷ paths) (inl e, h) = absurd (cc)
  no_file_left (path ∷ paths) (inr e, h) = (e, no_file_left paths h)

  main-Tells : (s : Lint) → Tells (λ code. IsAccepted) (main r s)
  unfolding main check_yaml check_json check_xml
  main-Tells s =
      let json_left_out = λ (path : FilePath). skipped path || elem ".vscode" path in
      let Wanted = λ (code : ℕ). IsAccepted in
      bind-Tells (λ u. Parsed skipped r.parses r.yaml_files) Wanted (check_yaml r) from_json s
        (check_files-Tells skipped r.parses _ r.yaml_files s) from_json-Calm
        λ u yaml s1.
          bind-Tells (λ u. Parsed json_left_out r.parses r.json_files) Wanted (check_json r)
            from_xml s1 (check_files-Tells json_left_out r.parses _ r.json_files s1) from_xml-Calm
            λ u json s2.
              bind-Tells (λ u. Parsed (λ path. false) r.parses r.xml_files) Wanted (check_xml r)
                from_alerts s2 (check_files-Tells (λ path. false) r.parses _ r.xml_files s2)
                from_alerts-Calm
                λ u xml s3.
                  bind-Tells (λ u. Unit {0}) Wanted (check_alerts r) from_dashboards s3
                    (any-Tells (check_alerts r s3)) from_dashboards-Calm
                    λ u _ s4.
                      bind-Tells (λ u. Unit {0}) Wanted (check_dashboards r.dashboards) from_order
                        s4 (any-Tells (check_dashboards r.dashboards s4)) from_order-Calm
                        λ u _ s5.
                          bind-Tells (λ u. SchemaHolds) Wanted (check_clickhouse_init_order r)
                            from_compose s5 (order-Tells s5) compose-Calm
                            λ u schema s6.
                              bind-Tells (λ u. Unit {0}) Wanted (check_compose r) at_end s6
                                (any-Tells (check_compose r s6)) (λ u s h. h)
                                λ u _ s7 e. record {
                                  yaml = yaml;
                                  json = json;
                                  xml = no_file_left r.xml_files xml;
                                  schema = schema;
                                }

  judged : (s : Lint) → Ensures (λ code s'. code ≡ verdict s') (main r s)
  unfolding main
  judged s = then-Ensures _ (check_yaml r) from_json s λ u s1.
      then-Ensures _ (check_json r) from_xml s1 λ u s2.
        then-Ensures _ (check_xml r) from_alerts s2 λ u s3.
          then-Ensures _ (check_alerts r) from_dashboards s3 λ u s4.
            then-Ensures _ (check_dashboards r.dashboards) from_order s4 λ u s5.
              then-Ensures _ (check_clickhouse_init_order r) from_compose s5
                λ u s6. then-Ensures _ (check_compose r) at_end s6 λ u s7. refl

  none_reported :
      (reports : List Report) → (elim reports [ [] ↦ 0 | p ∷ ps ↦ 1 ]) ≡ zero → reports ≡ []
  none_reported [] h = refl
  none_reported (p ∷ ps) h = absurd (cc)

  -- How the linter ends: by an exception, or with a code that is 0 only for such a repository.
  abbrev pub Accepts : Result ℕ × Lint → Type 0
  Accepts (ok code, s) = code ≡ 0 → IsAccepted
  Accepts (err e, s) = Unit

  code-Accepts :
      (out : Result ℕ × Lint)
      → Tells (λ code. IsAccepted) out
      → Ensures (λ code s'. code ≡ verdict s') out
      → Accepts out
  code-Accepts (ok code, s) tells judged =
      λ zero_code. tells (none_reported s.failures (sym judged ∙ zero_code))
  code-Accepts (err e, s) tells judged = tt

  -- An exit code of 0 of the linter: every YAML and JSON file that it does not leave out and every XML
  -- file of ClickHouse is taken by its parser; in the init files, in the order in which they are applied,
  -- every statement that targets a table comes behind one that creates it; and the four tables that the
  -- pipeline lands in are created.
  pub main-Accepts : (s : Lint) → Accepts (main r s)
  main-Accepts s = code-Accepts (main r s) (main-Tells s) (judged s)
