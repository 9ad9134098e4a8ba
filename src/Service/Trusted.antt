-- ===== src/Service/Trusted.antt =====
-- The program from its environment variables to its tables: what is refused at the start, and what
-- can reach the candle table.
use mathlib.Core.Path.{subst}
use crypto_analytics_platfor.Base.{
  ℕ, ◌≡◌, refl, ap, sym, ◌<◌, ◌↔◌, String, Bool, true, false, Option, none, some, inl, inr,
  Bool-cases,
}
use crypto_analytics_platfor.Base.Result.{
  Result, ok, err, Exception, value_error, Result-cases, bind_elim, ok-injective,
}
use crypto_analytics_platfor.Configuration
use crypto_analytics_platfor.Configuration.{Variables, from_env, validate}
use crypto_analytics_platfor.Configuration.Valid.{IsValid, validate_iff, build_source_total}
use crypto_analytics_platfor.Db.{Driver}
use crypto_analytics_platfor.Db.Landed.{Holds, Cast}
use crypto_analytics_platfor.Environment.{Environment}
use crypto_analytics_platfor.Service.{Service, Config}
use crypto_analytics_platfor.Service.Backfill.{Summary}
use crypto_analytics_platfor.Service.Landed.Loop.{run-Kept, run_backfill-Kept, IfReturned}
use crypto_analytics_platfor.Service.Main.{
  Outside, settings_of, fresh, construct, outside_of, is_once, configure_logging, backfilled,
  backfill_entry, ended_service, started_service, service_entry, zero_after, dispatch, main,
}
use crypto_analytics_platfor.Service.Run.{run}
use crypto_analytics_platfor.Service.Startup.{IsTicking}
use crypto_analytics_platfor.Service.Run.Stops.{Ends, run-Ends}
use crypto_analytics_platfor.Sources.Live.{Live, Gated, live, live-Delivers}
use crypto_analytics_platfor.Sources.Registry.{build_source}
use crypto_analytics_platfor.Sources.Replay.{Floats}

-- The constructor returns exactly on the valid configurations.
pub construct_iff :
    {S : Type 0} (c : Configuration.Config) (outside : Outside S)
    → ((s : Service S Live) × (construct c outside ≡ ok s)) ↔ IsValid c
unfolding construct
construct_iff c outside = (
  λ (s, e). bind_elim (validate c) _ e λ u f rest. (validate_iff c).0 f,
  λ v.
      let checked = (validate_iff c).1 v in
      let (built, e) = (build_source_total c checked).0 in
      (fresh outside built, rw (checked, e) refl),
)

-- A new service has the tables that are committed.
construct_tables :
    {S : Type 0} (c : Configuration.Config) (outside : Outside S) {s : Service S Live}
    → construct c outside ≡ ok s
    → s.db.tables ≡ outside.tables
unfolding construct
construct_tables c outside {s} e = bind_elim (validate c) _ e λ u f rest.
    bind_elim (build_source c.source c) _ rest λ built g last.
      sym (ap (λ (t : Service _ Live). t.db.tables) (ok-injective (fresh outside built) s last))

-- The configuration that the variables give can be run.
pub record IsStartable (is_level : String → Bool) (vars : Variables) : Type 0 where
  pub config : Configuration.Config
  pub read : from_env vars ≡ ok config
  pub level : is_level config.log_level ≡ true
  pub valid : IsValid config

module _ (E : Environment) (F : Floats) (release : E.State → E.State) (D : Driver)
    (is_level : String → Bool) where
  open E use {State}

  -- The program ends with an exception, and has changed nothing outside.
  abbrev pub Refuses : Outside State → Option (Result ℕ × Outside State) → Type 0
  Refuses outside out = (x : Exception) × (out ≡ some (err x, outside))

  constructed_refused :
      (once : Bool) (c : Configuration.Config) (fuel k : ℕ) (outside : Outside State)
      → (IsValid c → ⊥)
      → Refuses outside (dispatch E F release D is_level once fuel k outside (ok c))
  unfolding backfill_entry service_entry
  constructed_refused once c fuel k outside h = elim (Result-cases (construct c outside)) [
    | inl (s, e) ↦ absurd (h ((construct_iff c outside).0 (s, e)))
    | inr (x, e) ↦ elim (Bool-cases once) [
      | inl f ↦ (x, rw (f, e) refl)
      | inr f ↦ (x, rw (f, e) refl)
    ]
  ]

  -- Unless the variables can be read, name a level that the logging library takes and give a valid
  -- configuration, `main` raises before it has changed anything of the world, the metrics or the
  -- tables.
  pub main_refused :
      (vars : Variables) (fuel k : ℕ) (outside : Outside State)
      → (IsStartable is_level vars → ⊥)
      → Refuses outside (main E F release D is_level vars fuel k outside)
  unfolding main configure_logging
  main_refused vars fuel k outside h = elim (Result-cases (from_env vars)) [
    | inl (c, e) ↦ elim (Bool-cases (is_level c.log_level)) [
      | inl l ↦
          rw (e, l)
            (constructed_refused (is_once vars) c fuel k outside
              λ v. h (record { config = c; read = e; level = l; valid = v }))
      | inr l ↦ (value_error, rw (e, l) refl)
    ]
    | inr (x, e) ↦ (x, rw e refl)
  ]

  -- The program has ended, and every row of the candle table is the cast of a candle that passed
  -- the gate.
  abbrev pub EndsTrusted : Option (Result ℕ × Outside State) → Type 0
  EndsTrusted out =
      (r : Result ℕ) × (after : Outside State) × (out ≡ some (r, after))
      × Holds (Cast D Gated) after.tables

  ended_service-Trusted :
      (c : Config) (s : Service State Live) (out : Option (Result ℕ × Service State Live))
      → Ends E (live E F release) c D s out
      → IfReturned E (live E F release) c D Gated (live-Delivers E F release) out
      → EndsTrusted (ended_service E F release D is_level out)
  ended_service-Trusted c s none (r, t, e, rest) h = absurd (cc)
  ended_service-Trusted c s (some (r, t)) ends h = (r, outside_of t, refl, h)

  zero-Trusted :
      (r : Result Summary × Outside State)
      → Holds (Cast D Gated) r.1.tables
      → EndsTrusted (zero_after E F release D is_level r)
  zero-Trusted (ok summary, after) h = (ok 0, after, refl, h)
  zero-Trusted (err x, after) h = (err x, after, refl, h)

  started_service-Trusted :
      (c : Configuration.Config) (fuel k : ℕ) (outside : Outside State)
      (r : Result (Service State Live))
      → construct c outside ≡ r
      → IsTicking E
      → k < fuel
      → Holds (Cast D Gated) outside.tables
      → EndsTrusted (started_service E F release D is_level c fuel k outside r)
  started_service-Trusted c fuel k outside (err x) e ticking enough h = (err x, outside, refl, h)
  started_service-Trusted c fuel k outside (ok s) e ticking enough h =
      let settings = settings_of c in
      let sources = live E F release in
      ended_service-Trusted settings s (run E sources settings D fuel k s)
        (run-Ends E sources settings D fuel k s ticking enough)
        (run-Kept E sources settings D Gated (live-Delivers E F release) fuel k s
          (subst (Holds (Cast D Gated)) (sym (construct_tables c outside e)) h))

  backfilled-Trusted :
      (c : Configuration.Config) (minutes : Option ℕ) (outside : Outside State)
      (r : Result (Service State Live))
      → construct c outside ≡ r
      → Holds (Cast D Gated) outside.tables
      → Holds (Cast D Gated) (backfilled E F release D is_level c minutes outside r).1.tables
  backfilled-Trusted c minutes outside (err x) e h = h
  backfilled-Trusted c minutes outside (ok s) e h =
      run_backfill-Kept E (live E F release) (settings_of c) D Gated (live-Delivers E F release)
        minutes s (subst (Holds (Cast D Gated)) (sym (construct_tables c outside e)) h)

  dispatched-Trusted :
      (once : Bool) (c : Configuration.Config) (fuel k : ℕ) (outside : Outside State)
      → IsTicking E
      → k < fuel
      → Holds (Cast D Gated) outside.tables
      → EndsTrusted (dispatch E F release D is_level once fuel k outside (ok c))
  unfolding backfill_entry service_entry
  dispatched-Trusted true c fuel k outside ticking enough h =
      zero-Trusted (backfill_entry E F release D is_level c none outside)
        (backfilled-Trusted c none outside (construct c outside) refl h)
  dispatched-Trusted false c fuel k outside ticking enough h =
      started_service-Trusted c fuel k outside (construct c outside) refl ticking enough h

  -- The program, by a clock that ticks, from any environment variables, with either source, in one shot
  -- or as a service that is asked to stop at any read `k` of `_stopping`: it ends, and if before it every row of the candle
  -- table was the cast of a candle that had passed the gate, then so it is after it, whatever the
  -- exchange, the FX providers and the database did.
  pub main-Trusted :
      (vars : Variables) (fuel k : ℕ) (outside : Outside State)
      → IsTicking E
      → k < fuel
      → Holds (Cast D Gated) outside.tables
      → EndsTrusted (main E F release D is_level vars fuel k outside)
  unfolding main configure_logging
  main-Trusted vars fuel k outside ticking enough h = elim (Result-cases (from_env vars)) [
    | inl (c, e) ↦ elim (Bool-cases (is_level c.log_level)) [
      | inl l ↦ rw (e, l) (dispatched-Trusted (is_once vars) c fuel k outside ticking enough h)
      | inr l ↦ rw (e, l) (err value_error, outside, refl, h)
    ]
    | inr (x, e) ↦ rw e (err x, outside, refl, h)
  ]
