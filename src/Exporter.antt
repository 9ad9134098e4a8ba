-- ===== src/Exporter.antt =====
-- exporter/main.py: the gauges, the guard around a collector, and the queries.
pub mod Collect
pub mod Connect
pub mod Frame
pub mod Guarded
use crypto_analytics_platfor.Base.{
  ℕ, ◌==◌, ◌&&◌, String, Bool, true, false, List, [], ◌∷◌, Option, none, some, map, if◌then◌else◌,
}
use crypto_analytics_platfor.Base.Int.{ℤ}
use crypto_analytics_platfor.Base.Strings.{split, strip}
use crypto_analytics_platfor.Base.Texts.{str_eq}
use crypto_analytics_platfor.Base.Result.{Exception}
use crypto_analytics_platfor.Json.{Json}

-- The gauges that are labelled; the others have no labels.
pub data Gauge : Type 0 where
  oltp_rows oltp_freshness oltp_rejects slot_lag slot_active olap_rows olap_freshness olap_parts :
      Gauge
  cdc_lag cdc_dead_letters connector_up connector_tasks row_parity dbt_test_failures dbt_last_run :
      Gauge
  target_up : Gauge

abbrev pub index : Gauge → ℕ
index oltp_rows = 0
index oltp_freshness = 1
index oltp_rejects = 2
index slot_lag = 3
index slot_active = 4
index olap_rows = 5
index olap_freshness = 6
index olap_parts = 7
index cdc_lag = 8
index cdc_dead_letters = 9
index connector_up = 10
index connector_tasks = 11
index row_parity = 12
index dbt_test_failures = 13
index dbt_last_run = 14
index target_up = 15

-- What is raised: an HTTPError of `raise_for_status`, or anything else.
pub data Failure : Type 0 where
  http_error : Failure
  other : Exception → Failure

pub data Outcome (A : Type 0) : Type 0 where
  done : A → Outcome A
  raised : Failure → Outcome A

-- What `requests.get` gives of the connector's status: a status code and the decoded body, if it is JSON.
pub record Answer : Type 0 where
  pub status_code : ℕ
  pub document : Option Json

-- The platform's numbers, and the systems that are asked. `post` is a query over the HTTP interface of
-- ClickHouse, with `raise_for_status`; the statements of PostgreSQL give their rows, and the end of the
-- transaction is part of the last one.
pub record Targets : Type 1 where
  pub State : Type 0
  pub Float : Type 0
  pub zero : Float
  pub one : Float
  pub of_count : ℕ → Float
  pub of_int : ℤ → Float
  pub to_int : Float → Outcome ℤ
  pub float_of : String → Option Float
  pub is_nonnegative : Float → Bool
  pub open_postgres : State → Outcome (Unit {0}) × State
  pub candle_stats : State → Outcome (Float × Float) × State
  pub fx_stats : State → Outcome (Float × Float) × State
  pub reject_count : State → Outcome Float × State
  pub slots : State → Outcome (List (String × Float × Bool)) × State
  pub window_rows : State → Outcome ℤ × State
  pub post : String → State → Outcome String × State
  -- The label of a state that is no text, or what counting it raises.
  pub label_of : Json → Outcome String
  pub get_status : State → Outcome Answer × State

abbrev pub same_labels : List String → List String → Bool
same_labels [] [] = true
same_labels [] (l ∷ ls) = false
same_labels (k ∷ ks) [] = false
same_labels (k ∷ ks) (l ∷ ls) = let later = same_labels ks ls in str_eq k l && later

-- The children of a gauge, by their labels.
abbrev pub Series : Type 0 → Type 0
Series F = List (List String × F)

unfoldable pub put : {F : Type 0} → List String → F → Series F → Series F
put labels value [] = (labels, value) ∷ []
put labels value ((ls, v) ∷ rest) =
    let later = put labels value rest in
    if same_labels ls labels then (ls, value) ∷ rest else (ls, v) ∷ later

unfoldable pub lookup : {F : Type 0} → List String → Series F → Option F
lookup labels [] = none
lookup labels ((ls, v) ∷ rest) =
    let later = lookup labels rest in if same_labels ls labels then some v else later

-- The exporter: what it has asked, its gauges, and the targets whose scrapes it has counted as failed.
pub record Exporter (S F : Type 0) : Type 0 where
  pub world : S
  pub gauges : Gauge → Series F
  pub errors : List String

abbrev pub Collect : Type 0 → Type 0 → Type 0 → Type 0
Collect S F A = Exporter S F → Outcome A × Exporter S F

infixl 5 ◌>>=◌ ◌>>◌
unfoldable pub ◌>>=◌ : {S F A B : Type 0} → Collect S F A → (A → Collect S F B) → Collect S F B
◌>>=◌ m f s = let (r, s') = m s in elim r [ done a ↦ f a s' | raised e ↦ (raised e, s') ]

abbrev pub ◌>>◌ : {S F B : Type 0} → Collect S F (Unit {0}) → Collect S F B → Collect S F B
m >> k = m >>= λ _. k

abbrev pub pure : {S F A : Type 0} → A → Collect S F A
pure a s = (done a, s)

abbrev pub lift : {S F A : Type 0} → Outcome A → Collect S F A
lift r s = (r, s)

-- A call of one of the systems.
unfoldable pub call : {S F A : Type 0} → (S → Outcome A × S) → Collect S F A
call f s = let (r, w) = f s.world in (r, record s { world = w })

abbrev pub changed :
    {F : Type 0} → Gauge → (Series F → Series F) → (Gauge → Series F) → Gauge → Series F
changed g f gauges h = if index g == index h then f (gauges h) else gauges h

-- `GAUGE.labels(...).set(value)`
unfoldable pub set : {S F : Type 0} → Gauge → List String → F → Collect S F (Unit {0})
set g labels value s = (done tt, record s { gauges = changed g (put labels value) s.gauges })

-- `GAUGE.clear()`
unfoldable pub clear : {S F : Type 0} → Gauge → Collect S F (Unit {0})
clear g s = (done tt, record s { gauges = changed g (λ series. []) s.gauges })

-- `response.text.strip()`, cut into lines and fields.
unfoldable pub table_of : String → List (List String)
unfolding split strip str_eq
table_of text = if str_eq (strip text) "" then [] else map (split 9) (split 10 (strip text))

module _ (T : Targets) where
  open T use {State, Float}

  -- `guarded`: a failure is counted, and nothing else is undone or cleared.
  abbrev pub concluded :
      {A : Type 0} → String → Outcome A × Exporter State Float → Option A × Exporter State Float
  concluded target (done a, s) =
      (some a, record s { gauges = changed target_up (put (target ∷ []) T.one) s.gauges })
  concluded target (raised e, s) = (
    none,
    record s {
      gauges = changed target_up (put (target ∷ []) T.zero) s.gauges;
      errors = target ∷ s.errors;
    },
  )

  unfoldable pub guarded :
      {A : Type 0}
      → String
      → Collect State Float A
      → Exporter State Float
      → Option A × Exporter State Float
  unfolding put
  guarded target collector s = concluded target (collector s)

  unfoldable pub ch_query : String → Collect State Float (List (List String))
  unfolding table_of
  ch_query sql = call (T.post sql) >>= λ text. pure (table_of text)

  -- `_float`
  unfoldable pub to_float : String → Float → Float
  to_float value default = elim (T.float_of value) [ some x ↦ x | none ↦ default ]
