-- ===== src/Exporter/Frame/Collectors.antt =====
-- The three collectors leave to their guard what is the guard's.
use crypto_analytics_platfor.Base.{
  ◌==◌, ◌&&◌, leb, ltb, ◌≡◌, refl, String, Bool, true, false, List, [], ◌∷◌, Option, none, some,
  if◌then◌else◌,
}
use crypto_analytics_platfor.Base.Int.{ℤ}
use crypto_analytics_platfor.Json.{Json}
use crypto_analytics_platfor.Exporter.{
  Gauge, index, http_error, other, Outcome, done, raised, Targets, Exporter, Collect, pure, lift,
  set, ch_query,
}
use crypto_analytics_platfor.Pipeline.Health.{connector_state}
use crypto_analytics_platfor.Exporter.Collect.{
  cell, pair, triple, of_result, each, set_unless_negative, set_read, set_slot, collect_postgres,
  set_landing, with_first, set_total, set_parity, compare_rows, set_dead_letters, set_mart,
  forgiven, query_if_there, scrape_mart, marts, set_parts, set_tests, collect_landing,
  collect_marts, collect_clickhouse,
}
use crypto_analytics_platfor.Exporter.Connect.{
  listed_tasks, count_states, set_tasks, read_status, read_document, read_answer, collect_connect,
}
use crypto_analytics_platfor.Exporter.Frame.{
  Leaves, IsModest, bind-IsModest, call-IsModest, set-IsModest, clear-IsModest, same,
}

module _ (T : Targets) where
  open T use {State, Float}

  each-IsModest :
      {A : Type 0} (body : A → Collect State Float (Unit {0})) (xs : List A)
      → ((x : A) → IsModest (body x))
      → IsModest (each T body xs)
  unfolding each
  each-IsModest body [] h = same
  each-IsModest body (x ∷ xs) h =
      bind-IsModest (body x) (λ u. each T body xs) (h x) (λ u. each-IsModest body xs h)

  if-IsModest :
      {A : Type 0} (b : Bool) (m n : Collect State Float A)
      → IsModest m
      → IsModest n
      → IsModest (if b then m else n)
  if-IsModest true m n h g = h
  if-IsModest false m n h g = g

  set_unless_negative-IsModest :
      (g : Gauge) (ls : List String) (v : Float)
      → index g == 15 ≡ false
      → IsModest (set_unless_negative T g ls v)
  unfolding set_unless_negative
  set_unless_negative-IsModest g ls v h =
      if-IsModest (T.is_nonnegative v) (set g ls v) (pure tt) (set-IsModest g ls v h) same

  set_read-IsModest :
      (g : Gauge) (ls : List String) (v : String)
      → index g == 15 ≡ false
      → IsModest (set_read T g ls v)
  unfolding set_read
  set_read-IsModest g ls v h = if-IsModest _ _ (pure tt) (set-IsModest g ls _ h) same

  pub collect_postgres-IsModest : IsModest (collect_postgres T)
  unfolding collect_postgres set_slot
  collect_postgres-IsModest = bind-IsModest _ _ (call-IsModest _) λ u.
      bind-IsModest _ _ (call-IsModest _) λ candles.
        bind-IsModest _ _ (set-IsModest _ _ _ refl) λ u.
          bind-IsModest _ _ (set_unless_negative-IsModest _ _ _ refl) λ u.
            bind-IsModest _ _ (call-IsModest _) λ rates.
              bind-IsModest _ _ (set-IsModest _ _ _ refl) λ u.
                bind-IsModest _ _ (set_unless_negative-IsModest _ _ _ refl) λ u.
                  bind-IsModest _ _ (call-IsModest _) λ rejects.
                    bind-IsModest _ _ (set-IsModest _ _ _ refl) λ u.
                      bind-IsModest _ _ (call-IsModest _) λ slots.
                        bind-IsModest _ _
                          (each-IsModest _ slots λ (slot, lag, active).
                            bind-IsModest _ _ (set-IsModest _ _ _ refl)
                              λ u. set-IsModest _ _ _ refl)
                          λ u. call-IsModest _

  ch_query-IsModest : (sql : String) → IsModest (ch_query T sql)
  unfolding ch_query
  ch_query-IsModest sql = bind-IsModest _ _ (call-IsModest _) λ text. same

  with_first-IsModest :
      (body : List String → Collect State Float (Unit {0})) (rows : List (List String))
      → ((row : List String) → IsModest (body row))
      → IsModest (with_first T body rows)
  unfolding with_first
  with_first-IsModest body [] h = same
  with_first-IsModest body (row ∷ rows) h = h row

  query_if_there-IsModest : (sql : String) → IsModest (query_if_there T sql)
  unfolding query_if_there
  query_if_there-IsModest sql s = go (ch_query T sql s) (ch_query-IsModest sql s)
    where
      go :
          (r : Outcome (List (List String)) × Exporter State Float)
          → Leaves s r.1
          → Leaves s (forgiven T r).1
      go (done rows, t) l = l
      go (raised http_error, t) l = l
      go (raised (other e), t) l = l

  set_landing-IsModest : (row : List String) → IsModest (set_landing T row)
  unfolding set_landing
  set_landing-IsModest [] = same
  set_landing-IsModest (a ∷ []) = same
  set_landing-IsModest (a ∷ (b ∷ [])) = same
  set_landing-IsModest (a ∷ (b ∷ (c ∷ []))) = same
  set_landing-IsModest (a ∷ (b ∷ (c ∷ (d ∷ [])))) = same
  set_landing-IsModest (a ∷ (b ∷ (c ∷ (d ∷ (e ∷ []))))) =
      bind-IsModest _ _ (set-IsModest _ _ _ refl) λ u.
        bind-IsModest _ _ (set_read-IsModest _ _ _ refl) λ u.
          bind-IsModest _ _ (set_read-IsModest _ _ _ refl)
            λ u. bind-IsModest _ _ (set_read-IsModest _ _ _ refl) λ u. set_read-IsModest _ _ _ refl
  set_landing-IsModest (a ∷ (b ∷ (c ∷ (d ∷ (e ∷ (f ∷ row)))))) = same

  compare_rows-IsModest : (pg_stats : Option ℤ) → IsModest (compare_rows T pg_stats)
  unfolding compare_rows set_parity
  compare_rows-IsModest none = same
  compare_rows-IsModest (some window_rows) = bind-IsModest _ _ (ch_query-IsModest _) λ rows.
      with_first-IsModest _ rows λ row.
        bind-IsModest (lift (cell row 0)) _ same
          λ replica. bind-IsModest (lift _) _ same λ held. set-IsModest _ _ _ refl

  collect_landing-IsModest : (pg_stats : Option ℤ) → IsModest (collect_landing T pg_stats)
  unfolding collect_landing set_total set_dead_letters
  collect_landing-IsModest pg_stats = bind-IsModest _ _ (ch_query-IsModest _) λ rows.
      bind-IsModest _ _ (with_first-IsModest _ rows set_landing-IsModest) λ u.
        bind-IsModest _ _ (ch_query-IsModest _) λ total.
          bind-IsModest _ _
            (with_first-IsModest _ total
              λ row. bind-IsModest (lift (cell row 0)) _ same λ n. set-IsModest _ _ _ refl)
            λ u. bind-IsModest _ _ (compare_rows-IsModest pg_stats) λ u.
              bind-IsModest _ _ (ch_query-IsModest _) λ dlq.
                bind-IsModest _ _ (clear-IsModest _ refl) λ u.
                  each-IsModest _ dlq
                    λ row. bind-IsModest (lift (pair row)) _ same λ read. set-IsModest _ _ _ refl

  scrape_mart-IsModest : (mart : String × String × String) → IsModest (scrape_mart T mart)
  unfolding scrape_mart set_mart
  scrape_mart-IsModest (database, mart, column) =
      bind-IsModest _ _ (query_if_there-IsModest _) λ rows. with_first-IsModest _ rows λ row.
        bind-IsModest (lift (cell row 0)) _ same λ count.
          bind-IsModest _ _ (set-IsModest _ _ _ refl)
            λ u. bind-IsModest (lift (cell row 1)) _ same λ age. set_read-IsModest _ _ _ refl

  collect_marts-IsModest : IsModest (collect_marts T)
  unfolding collect_marts set_parts set_tests
  collect_marts-IsModest =
      bind-IsModest _ _ (each-IsModest (scrape_mart T) (marts T) scrape_mart-IsModest) λ u.
        bind-IsModest _ _ (ch_query-IsModest _) λ parts.
          bind-IsModest _ _
            (each-IsModest _ parts
              λ row. bind-IsModest (lift (triple row)) _ same λ read. set-IsModest _ _ _ refl)
            λ u. bind-IsModest _ _ (query_if_there-IsModest _) λ dbt_rows.
              bind-IsModest _ _ (clear-IsModest _ refl) λ u. each-IsModest _ dbt_rows λ row.
                bind-IsModest (lift (triple row)) _ same
                  λ read. bind-IsModest _ _ (set-IsModest _ _ _ refl) λ u. set-IsModest _ _ _ refl

  pub collect_clickhouse-IsModest : (pg_stats : Option ℤ) → IsModest (collect_clickhouse T pg_stats)
  unfolding collect_clickhouse
  collect_clickhouse-IsModest pg_stats =
      bind-IsModest _ _ (collect_landing-IsModest pg_stats) λ u. collect_marts-IsModest

  read_status-IsModest :
      (connector : String) (status : Json) → IsModest (read_status T connector status)
  unfolding read_status set_tasks
  read_status-IsModest connector status =
      bind-IsModest (lift (of_result (connector_state status))) _ same λ state.
        bind-IsModest _ _ (set-IsModest _ _ _ refl) λ u.
          bind-IsModest (lift (of_result (listed_tasks T status))) _ same λ states.
            bind-IsModest (lift (count_states T states [])) _ same λ counts.
              bind-IsModest _ _ (clear-IsModest _ refl)
                λ u. each-IsModest _ counts λ (state, n). set-IsModest _ _ _ refl

  read_document-IsModest :
      (connector : String) (document : Option Json) → IsModest (read_document T connector document)
  unfolding read_document
  read_document-IsModest connector none = same
  read_document-IsModest connector (some status) = read_status-IsModest connector status

  pub collect_connect-IsModest : (connector : String) → IsModest (collect_connect T connector)
  unfolding collect_connect read_answer
  collect_connect-IsModest connector = bind-IsModest _ _ (call-IsModest _) λ answer.
      if-IsModest (answer.status_code == 404) _ _ (set-IsModest _ _ _ refl) (
        if-IsModest (leb 400 answer.status_code && ltb answer.status_code 600) _ _ same
          (read_document-IsModest connector answer.document))
