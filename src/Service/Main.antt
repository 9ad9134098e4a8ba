-- ===== src/Service/Main.antt =====
-- The two entry points of ingestion/service.py from the configuration on: the constructor of the
-- service, the head of `run_backfill`, and `main`.
use crypto_analytics_platfor.Base.{
  ℕ, String, Bool, false, not, [], ◌∷◌, Option, none, some, if◌then◌else◌,
}
use crypto_analytics_platfor.Base.Int.{pos_part}
use crypto_analytics_platfor.Base.Result.{Result, ok, err, Exception, raise_if, value_error}
use crypto_analytics_platfor.Base.Result
use crypto_analytics_platfor.Base.Strings.{lower, elem}
use crypto_analytics_platfor.Configuration
use crypto_analytics_platfor.Configuration.{Variables, env, from_env, validate}
use crypto_analytics_platfor.Datetime.{epoch}
use crypto_analytics_platfor.Db.{Driver, Tables}
use crypto_analytics_platfor.Db.Connection.{absent}
use crypto_analytics_platfor.Environment.{Environment}
use crypto_analytics_platfor.Metrics.{Trace}
use crypto_analytics_platfor.Service.{Config, Service}
use crypto_analytics_platfor.Service.Backfill.{Summary, run_backfill}
use crypto_analytics_platfor.Service.Run.{run}
use crypto_analytics_platfor.Sources.Live.{Live, of_built, live, fetch_live, close_live}
use crypto_analytics_platfor.Sources.Registry.{Built, build_source}
use crypto_analytics_platfor.Sources.Replay.{Floats}

-- What the service reads of a configuration that has been checked.
unfoldable pub settings_of : Configuration.Config → Config
settings_of c = record {
  source = c.source;
  symbols = c.symbols;
  backfill_minutes = pos_part c.backfill_minutes;
  fallback_after_failures = c.fallback_after_failures;
  fx_base = c.fx_base;
  fx_quote = c.fx_quote;
  fx_refresh_seconds = c.fx_refresh_seconds;
  interval_seconds = c.interval_seconds;
}

-- What the process changes: the world, the metrics and the committed tables.
pub record Outside (S : Type 0) : Type 0 where
  pub world : S
  pub trace : Trace
  pub tables : Tables

-- The attributes that the constructor sets; the clock of the FX refresh starts at the epoch.
abbrev pub fresh : {S : Type 0} → Outside S → Built → Service S Live
fresh outside built = record {
  world = outside.world;
  trace = outside.trace;
  db = record { handle = absent; tables = outside.tables };
  source = of_built built;
  fallback = none;
  consecutive_failures = 0;
  last_fx_refresh = epoch;
  stopping = false;
}

-- `IngestionService.__init__`
unfoldable pub construct : {S : Type 0} → Configuration.Config → Outside S → Result (Service S Live)
unfolding validate build_source
construct c outside =
    Result.◌>>=◌ (validate c)
      λ u. Result.◌>>=◌ (build_source c.source c) λ built. ok (fresh outside built)

abbrev pub outside_of : {S : Type 0} → Service S Live → Outside S
outside_of s = record { world = s.world; trace = s.trace; tables = s.db.tables }

-- `os.environ.get("INGEST_ONCE", "").lower() in {"1", "true", "yes"}`
unfoldable pub is_once : Variables → Bool
unfolding lower elem
is_once vars =
    elem (lower (elim (vars "INGEST_ONCE") [ some value ↦ value | none ↦ "" ]))
      ("1" ∷ "true" ∷ "yes" ∷ [])

-- `release` is what closing an HTTP session does, and `is_level` tells which names of a level the
-- logging library takes; it raises a ValueError at any other.
module _ (E : Environment) (F : Floats) (release : E.State → E.State) (D : Driver)
    (is_level : String → Bool) where
  open E use {State}

  unfoldable pub configure_logging : String → Result (Unit {0})
  configure_logging level = raise_if (not (is_level level)) value_error

  abbrev pub backfilled :
      Configuration.Config
      → Option ℕ
      → Outside State
      → Result (Service State Live)
      → Result Summary × Outside State
  backfilled c minutes outside (err e) = (err e, outside)
  backfilled c minutes outside (ok s) =
      let (r, t) = run_backfill E (live E F release) (settings_of c) D minutes s in
      (r, outside_of t)

  -- The whole of `run_backfill`: its head makes what the constructor makes.
  unfoldable pub backfill_entry :
      Configuration.Config → Option ℕ → Outside State → Result Summary × Outside State
  unfolding construct run_backfill settings_of fetch_live close_live
  backfill_entry c minutes outside = backfilled c minutes outside (construct c outside)

  abbrev pub ended_service :
      Option (Result ℕ × Service State Live) → Option (Result ℕ × Outside State)
  ended_service none = none
  ended_service (some (r, t)) = some (r, outside_of t)

  abbrev pub started_service :
      Configuration.Config
      → ℕ
      → ℕ
      → Outside State
      → Result (Service State Live)
      → Option (Result ℕ × Outside State)
  started_service c fuel k outside (err e) = some (err e, outside)
  started_service c fuel k outside (ok s) =
      ended_service (run E (live E F release) (settings_of c) D fuel k s)

  -- `IngestionService(config).run()`, where the signal comes at the k-th read of `_stopping`.
  unfoldable pub service_entry :
      Configuration.Config → ℕ → ℕ → Outside State → Option (Result ℕ × Outside State)
  unfolding construct run settings_of fetch_live close_live
  service_entry c fuel k outside = started_service c fuel k outside (construct c outside)

  abbrev pub zero_after : Result Summary × Outside State → Option (Result ℕ × Outside State)
  zero_after (ok summary, outside) = some (ok 0, outside)
  zero_after (err e, outside) = some (err e, outside)

  abbrev pub dispatch :
      Bool → ℕ → ℕ → Outside State → Result Configuration.Config → Option (Result ℕ × Outside State)
  dispatch once fuel k outside (err e) = some (err e, outside)
  dispatch once fuel k outside (ok c) =
      if once then zero_after (backfill_entry c none outside) else service_entry c fuel k outside

  -- `main`, on the fuel of the service's loop. `none` says that it still runs or waits.
  unfoldable pub main : Variables → ℕ → ℕ → Outside State → Option (Result ℕ × Outside State)
  unfolding from_env configure_logging is_once backfill_entry service_entry
  main vars fuel k outside =
      dispatch (is_once vars) fuel k outside
        (Result.◌>>=◌ (from_env vars) λ c. Result.◌>>=◌ (configure_logging c.log_level) λ u. ok c)
