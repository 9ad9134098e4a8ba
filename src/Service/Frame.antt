-- ===== src/Service/Frame.antt =====
-- What no call of the loop over the symbols changes: a condition on the two sources and on the count
-- of failures, which a fetch keeps where it stores the source it has used.
use crypto_analytics_platfor.Base.{
  ℕ, ◌≡◌, refl, ◌-◌, ◌/◌, String, List, [], ◌∷◌, Option, none, some, inl, inr, leb, Bool-cases,
}
use crypto_analytics_platfor.Base.Int.{ℤ}
use crypto_analytics_platfor.Base.Result.{Result, ok, err}
use crypto_analytics_platfor.Datetime.{Datetime, minute, to_ms}
use crypto_analytics_platfor.Db.{Driver}
use crypto_analytics_platfor.Db.Connection.{upsert_candles}
use crypto_analytics_platfor.Environment.{Environment}
use crypto_analytics_platfor.Metrics.{Trace, backfill_gap, rows_written}
use crypto_analytics_platfor.Models.{Candle}
use crypto_analytics_platfor.Service.{CandleSources, Config, Service, Action, lift, emit}
use crypto_analytics_platfor.Service.Rules.{Keeps, bind-Keeps}
use crypto_analytics_platfor.Service.Window.{
  read_clock, next_fault, newest_held, pending_window, store_source, fetch_active, write_candles,
  land, ingest_window, on_db, window_end, window_start,
}
use crypto_analytics_platfor.Service.Cycle.{
  gauge_lag, measure_lag, after_lag, after_ingest, ingest_pending, try_symbol, try_symbols,
}

module _ (E : Environment) (K : CandleSources E.State) (c : Config) (D : Driver) where
  open E use {State}
  open K use {Source}

  module _ (P : Service State Source → Type 0)
      (other_fields : (s s' : Service State Source)
        → s'.fallback ≡ s.fallback
        → s'.source ≡ s.source
        → s'.consecutive_failures ≡ s.consecutive_failures
        → P s
        → P s')
      (stored : (o : Option Source) (s : Service State Source)
          (r : Result (List Candle) × Source × (State × Trace))
        → s.fallback ≡ o
        → P s
        → P (store_source E K o s r).1) where
    fetch-Keeps : (symbol : String) (start end : ℤ) → Keeps P (fetch_active E K symbol start end)
    unfolding fetch_active
    fetch-Keeps symbol start end s h = stored s.fallback s _ refl h

    clock-Keeps : Keeps P (read_clock E K)
    unfolding read_clock
    clock-Keeps s h = other_fields s _ refl refl refl h

    fault-Keeps : Keeps P (next_fault E K)
    unfolding next_fault
    fault-Keeps s h = other_fields s _ refl refl refl h

    newest-Keeps : (symbol : String) → Keeps P (newest_held E K symbol)
    unfolding newest_held
    newest-Keeps symbol =
        bind-Keeps P (next_fault E K) _ fault-Keeps λ fault s h. other_fields s _ refl refl refl h

    pending-Keeps : (symbol : String) (minutes : ℕ) → Keeps P (pending_window E K symbol minutes)
    unfolding pending_window
    pending-Keeps symbol minutes = bind-Keeps P (read_clock E K) _ clock-Keeps λ now.
        bind-Keeps P (lift (window_end now)) _ (λ s h. h)
          λ end. bind-Keeps P (newest_held E K symbol) _ (newest-Keeps symbol) λ newest.
            bind-Keeps P (lift (window_start minutes end newest)) _ (λ s h. h)
              λ start.
                bind-Keeps P (emit (backfill_gap symbol ((end - start) / minute))) _
                  (λ s h. other_fields s _ refl refl refl h) λ u s h. h

    write-Keeps :
        (candles : List Candle) (symbol : String) → Keeps P (write_candles E K D candles symbol)
    unfolding write_candles
    write-Keeps candles symbol = bind-Keeps P (next_fault E K) _ fault-Keeps λ fault.
        bind-Keeps P (read_clock E K) _ clock-Keeps λ now.
          bind-Keeps P (on_db E K (upsert_candles D fault now 500 candles)) _
            (λ s h. other_fields s _ refl refl refl h)
            λ written.
              bind-Keeps P (emit (rows_written "market_candles_1m" symbol written)) _
                (λ s h. other_fields s _ refl refl refl h) λ u s h. h

    land-Keeps : (symbol : String) (candles : List Candle) → Keeps P (land E K D symbol candles)
    unfolding land
    land-Keeps symbol [] s h = h
    land-Keeps symbol (x ∷ xs) s h = write-Keeps (x ∷ xs) symbol s h

    ingest-Keeps :
        (symbol : String) (start end : Datetime) → Keeps P (ingest_window E K D symbol start end)
    unfolding ingest_window
    ingest-Keeps symbol start end = elim (Bool-cases (leb end start)) [
      | inl empty ↦ rw empty (λ s h. h)
      | inr open_window ↦ rw open_window (
          bind-Keeps P (fetch_active E K symbol (to_ms start) (to_ms end)) _
            (fetch-Keeps symbol (to_ms start) (to_ms end)) λ candles. land-Keeps symbol candles)
    ]

    gauge-Keeps :
        (symbol : String) (newest : Option Datetime) → Keeps P (gauge_lag E K c symbol newest)
    unfolding gauge_lag
    gauge-Keeps symbol none s h = h
    gauge-Keeps symbol (some t) s h =
        bind-Keeps P (read_clock E K) _ clock-Keeps (λ now s h. other_fields s _ refl refl refl h) s
          h

    lag-Keeps : (symbol : String) → Keeps P (measure_lag E K c symbol)
    unfolding measure_lag
    lag-Keeps symbol =
        bind-Keeps P (newest_held E K symbol) _ (newest-Keeps symbol)
          λ newest. gauge-Keeps symbol newest

    pending_and_ingest-Keeps : (symbol : String) → Keeps P (ingest_pending E K c D symbol)
    unfolding ingest_pending
    pending_and_ingest-Keeps symbol =
        bind-Keeps P (pending_window E K symbol c.backfill_minutes) _
          (pending-Keeps symbol c.backfill_minutes) λ window. ingest-Keeps symbol window.0 window.1

    lag_outcome :
        (written : ℕ) (r : Result (Unit {0}) × Service State Source)
        → P r.1
        → P (after_lag E K c written r).1
    lag_outcome written (ok u, s) h = h
    lag_outcome written (err e, s) h = other_fields s _ refl refl refl h

    ingest_outcome :
        (lag : Action State Source (Unit {0})) (r : Result ℕ × Service State Source)
        → Keeps P lag
        → P r.1
        → P (after_ingest E K c lag r).1
    ingest_outcome lag (ok written, s) k h = lag_outcome written (lag s) (k s h)
    ingest_outcome lag (err e, s) k h = other_fields s _ refl refl refl h

    symbol-Keeps :
        (symbol : String) (s : Service State Source) → P s → P (try_symbol E K c D symbol s).1
    unfolding try_symbol
    symbol-Keeps symbol s h =
        ingest_outcome (measure_lag E K c symbol) (ingest_pending E K c D symbol s)
          (lag-Keeps symbol) (pending_and_ingest-Keeps symbol s h)

    pub symbols-Keep :
        (symbols : List String) (s : Service State Source)
        → P s
        → P (try_symbols E K c D symbols s).1
    unfolding try_symbols
    symbols-Keep [] s h = h
    symbols-Keep (symbol ∷ symbols) s h =
        symbols-Keep symbols (try_symbol E K c D symbol s).1 (symbol-Keeps symbol s h)
