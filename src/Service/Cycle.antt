-- ===== src/Service/Cycle.antt =====
-- `cycle`, `_note_failure` and `_note_success` of the service.
use crypto_analytics_platfor.Base.{
  ℕ, ◌+◌, Bool, false, not, ◌&&◌, String, List, [], ◌∷◌, Option, none, some, pos, ltb, ◌==◌,
  if◌then◌else◌, length,
}
use crypto_analytics_platfor.Base.Int.{◌-ℤ◌, leb_ℤ}
use crypto_analytics_platfor.Base.Result.{Result, ok, err, Exception, source}
use crypto_analytics_platfor.Datetime.{Datetime}
use crypto_analytics_platfor.Db.{Driver}
use crypto_analytics_platfor.Environment.{Environment}
use crypto_analytics_platfor.Metrics
use crypto_analytics_platfor.Metrics.{
  Event, ErrorKind, api, database, error, source_lag, cycle_done, succeeded, partial, failed,
  last_success, consecutive_failures, set_active_source,
}
use crypto_analytics_platfor.Service.{CandleSources, Config, Service, Action, ◌>>=◌, pure, emit}
use crypto_analytics_platfor.Service.Window.{read_clock, newest_held, pending_window, ingest_window}

-- `except SourceError` and `except Exception`
unfoldable pub error_kind : Exception → ErrorKind
error_kind (source _) = api
error_kind _ = database

module _ (E : Environment) (K : CandleSources E.State) (c : Config) where
  open E use {State}
  open K use {Source}

  -- `budget and failures >= budget and fallback is None`
  unfoldable pub should_degrade : ℕ → Option Source → Bool
  should_degrade failures (some _) = false
  should_degrade failures none =
      not (leb_ℤ c.fallback_after_failures (pos 0) && leb_ℤ (pos 0) c.fallback_after_failures)
      && leb_ℤ c.fallback_after_failures (pos failures)

  unfoldable pub note_failure : Service State Source → Service State Source
  unfolding should_degrade
  note_failure s =
      let failures = s.consecutive_failures + 1 in
      let trace = consecutive_failures failures ∷ s.trace in
      if should_degrade failures s.fallback
      then record s {
        consecutive_failures = failures;
        fallback = some K.replay;
        trace = set_active_source "replay" trace;
      }
      else record s { consecutive_failures = failures; trace = trace }

  -- `_note_success`, on the fallback.
  unfoldable pub leave_fallback : Option Source → Service State Source → Service State Source
  leave_fallback none s = s
  leave_fallback (some f) s = record s {
    world = K.close f s.world;
    fallback = none;
    trace = set_active_source c.source s.trace;
  }

  unfoldable pub note_success : Service State Source → Service State Source
  unfolding leave_fallback
  note_success s =
      let t = leave_fallback s.fallback s in
      record t { consecutive_failures = 0; trace = consecutive_failures 0 ∷ t.trace }

  -- The gauge of the lag, where the database holds a candle.
  unfoldable pub gauge_lag : String → Option Datetime → Action State Source (Unit {0})
  unfolding read_clock ◌-ℤ◌
  gauge_lag symbol none = pure tt
  gauge_lag symbol (some newest) = do
    now ← read_clock E K
    emit (source_lag symbol (pos now -ℤ pos newest))

  unfoldable pub measure_lag : String → Action State Source (Unit {0})
  unfolding newest_held gauge_lag
  measure_lag symbol = do newest ← newest_held E K symbol; gauge_lag symbol newest

  -- A handler: the symbol has failed, and its error is counted.
  abbrev pub handled : ℕ → Exception → Service State Source → (ℕ × ℕ) × Service State Source
  handled written e s = ((written, 1), record s { trace = error (error_kind e) ∷ s.trace })

  abbrev pub after_lag :
      ℕ → Result (Unit {0}) × Service State Source → (ℕ × ℕ) × Service State Source
  after_lag written (ok _, s) = ((written, 0), s)
  after_lag written (err e, s) = handled written e s

  abbrev pub after_ingest :
      (Action State Source (Unit {0}))
      → Result ℕ × Service State Source
      → (ℕ × ℕ) × Service State Source
  after_ingest lag (ok written, s) = after_lag written (lag s)
  after_ingest lag (err e, s) = handled 0 e s

  module _ (D : Driver) where
    -- The first two lines of the try: the rows written.
    unfoldable pub ingest_pending : String → Action State Source ℕ
    unfolding pending_window ingest_window
    ingest_pending symbol = do
      window ← pending_window E K symbol c.backfill_minutes
      ingest_window E K D symbol window.0 window.1

    -- One pass of the loop: the rows written, and 1 where the symbol failed. What was written counts
    -- even where the lag cannot be read afterwards.
    unfoldable pub try_symbol : String → Service State Source → (ℕ × ℕ) × Service State Source
    unfolding ingest_pending measure_lag error_kind
    try_symbol symbol s = after_ingest (measure_lag symbol) (ingest_pending symbol s)

    -- `for symbol in self.config.symbols`: the total and the failures.
    unfoldable pub try_symbols : List String → Service State Source → (ℕ × ℕ) × Service State Source
    unfolding try_symbol
    try_symbols [] s = ((0, 0), s)
    try_symbols (symbol ∷ symbols) s =
        let ((written, failure), s1) = try_symbol symbol s in
        let ((total, failures), s2) = try_symbols symbols s1 in
        ((written + total, failure + failures), s2)

    abbrev pub count_cycle : Metrics.CycleOutcome → Service State Source → Service State Source
    count_cycle outcome t = record t { trace = cycle_done outcome ∷ t.trace }

    -- The branches behind the loop, from the number of failures.
    unfoldable pub conclude : ℕ → ℕ → Service State Source → Service State Source
    unfolding note_success note_failure
    conclude symbols failures s =
        if failures == 0
        then count_cycle succeeded (note_success s)
        else if ltb failures symbols
        then count_cycle partial s
        else count_cycle failed (note_failure s)

    unfoldable pub cycle : Service State Source → ℕ × Service State Source
    unfolding try_symbols conclude
    cycle s =
        let ((total, failures), s1) = try_symbols c.symbols s in
        let s2 = conclude (length c.symbols) failures s1 in
        (total, (if total == 0 then s2 else record s2 { trace = last_success ∷ s2.trace }))
