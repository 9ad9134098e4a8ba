-- ===== src/Service/Landed.antt =====
-- What reaches the candle table through the service: whatever the calls do, a row is the cast of a
-- candle that a source gave.
pub mod Loop
use mathlib.Core.Path.{subst}
use crypto_analytics_platfor.Base.{
  sym, ℕ, zero, suc, ◌-◌, ◌≤◌, ◌≡◌, refl, String, List, [], ◌∷◌, Option, none, some, inl, inr, Bool,
  arith, All, Bool-cases, min, leb, ltb, ◌==◌, length, ◌*◌, if◌then◌else◌,
}
use crypto_analytics_platfor.Base.Int.{ℤ}
use crypto_analytics_platfor.Base.Result.{Result, ok, err, fx_error}
use crypto_analytics_platfor.Datetime.{Datetime, to_ms}
use crypto_analytics_platfor.Db.{Tables, CandleRow, Driver}
use crypto_analytics_platfor.Db.Connection.{
  Database, latest_open_time, upsert_candles, upsert_fx_rate, ensure_symbol,
}
use crypto_analytics_platfor.Db.Landed.{
  Holds, Cast, upsert_candles-Holds, latest_open_time_candles, ensure_symbol_candles,
  upsert_fx_rate_candles,
}
use crypto_analytics_platfor.Environment.{Environment, Fault}
use crypto_analytics_platfor.Metrics.{Trace}
use crypto_analytics_platfor.Models.{Candle, FxRate}
use crypto_analytics_platfor.Service.{
  CandleSources, Config, Service, Action, ◌>>=◌, pure, lift, active_source,
}
use crypto_analytics_platfor.Service.Rules.{Keeps, bind-Keeps, Given, bind_value-Keeps}
use crypto_analytics_platfor.Service.Window.{
  read_clock, next_fault, on_db, newest_held, pending_window, store_source, fetch_active,
  write_candles, land, ingest_window, window_end, window_start,
}

-- If a fetch returns, every candle of its list has the property.
abbrev pub Gives : {X Y : Type 0} → (Candle → Type 0) → Result (List Candle) × X × Y → Type 0
Gives P (ok cs, x, y) = All P cs
Gives P (err e, x, y) = Unit

-- The promise of a set of sources: every candle that one of them returns has the property.
abbrev pub Delivers : {S : Type 0} → CandleSources S → (Candle → Type 0) → Type 0
Delivers {S} K P =
    (symbol : String) (start end : ℤ) (source : K.Source) (w : S × Trace)
    → Gives P (K.fetch symbol start end source w)

module _ (E : Environment) (K : CandleSources E.State) (D : Driver) (P : Candle → Type 0)
    (delivers : Delivers K P) where
  open E use {State}
  open K use {Source}

  -- Every row of the candle table is the cast of a candle that has the property.
  abbrev pub AllCast : Service State Source → Type 0
  AllCast s = Holds (Cast D P) s.db.tables

  pub next_fault-Keeps : Keeps AllCast (next_fault E K)
  unfolding next_fault
  next_fault-Keeps s h = h

  pub read_clock-Keeps : Keeps AllCast (read_clock E K)
  unfolding read_clock
  read_clock-Keeps s h = h

  -- A call of the database that leaves the candles alone.
  pub quiet-Keeps :
      {A : Type 0} (call : Database → Result A × Database)
      → ((db : Database) → (call db).1.tables.candles ≡ db.tables.candles)
      → Keeps AllCast (on_db E K call)
  quiet-Keeps call same s h =
      subst (λ rows. All (λ (r : CandleRow). Cast D P r.candle) rows) (sym (same s.db)) h

  pub newest_held-Keeps : (symbol : String) → Keeps AllCast (newest_held E K symbol)
  unfolding newest_held
  newest_held-Keeps symbol =
      bind-Keeps AllCast (next_fault E K) _ next_fault-Keeps
        λ fault. quiet-Keeps (latest_open_time fault symbol) (latest_open_time_candles fault symbol)

  pub pending_window-Keeps :
      (symbol : String) (minutes : ℕ) → Keeps AllCast (pending_window E K symbol minutes)
  unfolding pending_window
  pending_window-Keeps symbol minutes =
      bind-Keeps AllCast (read_clock E K) _ read_clock-Keeps λ now.
        bind-Keeps AllCast (lift (window_end now)) _ (λ s h. h)
          λ end. bind-Keeps AllCast (newest_held E K symbol) _ (newest_held-Keeps symbol) λ newest.
            bind-Keeps AllCast (lift (window_start minutes end newest)) _ (λ s h. h)
              λ start. bind-Keeps AllCast _ _ (λ s h. h) λ u s h. h

  stored :
      (o : Option Source) (s : Service State Source)
      (r : Result (List Candle) × Source × (State × Trace))
      → AllCast s
      → AllCast (store_source E K o s r).1
  stored none s (r, source, (w, trace)) h = h
  stored (some f) s (r, source, (w, trace)) h = h

  store_source-Given :
      (o : Option Source) (s : Service State Source)
      (r : Result (List Candle) × Source × (State × Trace))
      → Gives P r
      → Given (All P) (store_source E K o s r).0
  store_source-Given none s (ok cs, source, (w, trace)) g = g
  store_source-Given none s (err e, source, (w, trace)) g = g
  store_source-Given (some f) s (ok cs, source, (w, trace)) g = g
  store_source-Given (some f) s (err e, source, (w, trace)) g = g

  fetch_active-Keeps :
      (symbol : String) (start end : ℤ) → Keeps AllCast (fetch_active E K symbol start end)
  unfolding fetch_active
  fetch_active-Keeps symbol start end s h = stored s.fallback s _ h

  fetch_active-Given :
      (symbol : String) (start end : ℤ) (s : Service State Source)
      → Given (All P) (fetch_active E K symbol start end s).0
  unfolding fetch_active
  fetch_active-Given symbol start end s =
      store_source-Given s.fallback s _
        (delivers symbol start end (active_source s) (s.world, s.trace))

  write_candles-Keeps :
      (candles : List Candle) (symbol : String)
      → All P candles
      → Keeps AllCast (write_candles E K D candles symbol)
  unfolding write_candles
  write_candles-Keeps candles symbol p =
      bind-Keeps AllCast (next_fault E K) _ next_fault-Keeps λ fault.
        bind-Keeps AllCast (read_clock E K) _ read_clock-Keeps λ now.
          bind-Keeps AllCast (on_db E K (upsert_candles D fault now 500 candles)) _
            (λ s h. upsert_candles-Holds D P fault now 500 candles s.db (omega arith) p h)
            λ written. bind-Keeps AllCast _ _ (λ s h. h) λ u s h. h

  land-Keeps :
      (symbol : String) (candles : List Candle)
      → All P candles
      → Keeps AllCast (land E K D symbol candles)
  unfolding land
  land-Keeps symbol [] p s h = h
  land-Keeps symbol (c ∷ cs) p s h = write_candles-Keeps (c ∷ cs) symbol p s h

  pub ingest_window-Keeps :
      (symbol : String) (start end : Datetime)
      → Keeps AllCast (ingest_window E K D symbol start end)
  unfolding ingest_window
  ingest_window-Keeps symbol start end s h = elim (Bool-cases (leb end start)) [
    | inl none_left ↦ rw none_left h
    | inr some_left ↦ rw some_left (
        bind_value-Keeps AllCast (All P) (fetch_active E K symbol (to_ms start) (to_ms end))
          (land E K D symbol) (fetch_active-Keeps symbol (to_ms start) (to_ms end))
          (fetch_active-Given symbol (to_ms start) (to_ms end)) (land-Keeps symbol) s h)
  ]
