-- ===== src/Service/Window.antt =====
-- `pending_window` and `ingest_window`.
use crypto_analytics_platfor.Base.{
  ℕ, ◌-◌, ◌*◌, ◌/◌, String, List, [], ◌∷◌, Option, none, some, leb, ltb, ◌==◌, if◌then◌else◌,
}
use crypto_analytics_platfor.Base.Int.{ℤ}
use crypto_analytics_platfor.Base.Result.{Result, ok, err, Exception}
use crypto_analytics_platfor.Base.Result
use crypto_analytics_platfor.Datetime.{Datetime, minute, plus, minus, to_ms}
use crypto_analytics_platfor.Db.{Driver}
use crypto_analytics_platfor.Db.Connection.{Database, upsert_candles, latest_open_time}
use crypto_analytics_platfor.Environment.{Environment, Fault}
use crypto_analytics_platfor.Metrics.{Trace, rows_written, backfill_gap}
use crypto_analytics_platfor.Models.{Candle}
use crypto_analytics_platfor.Service.{
  CandleSources, Service, Action, ◌>>=◌, ◌>>◌, pure, lift, emit, active_source,
}
use crypto_analytics_platfor.Sources.Grid.{last_closed_minute}

-- `max_backfill_minutes or 1`, as a time span.
unfoldable pub budget_span : ℕ → ℕ
budget_span minutes = (if minutes == 0 then 1 else minutes) * minute

-- The end of the window: the minute after the last closed one.
unfoldable pub window_end : Datetime → Result Datetime
window_end now = Result.◌>>=◌ (last_closed_minute now) (λ t. plus t minute)

-- The start, from the newest candle held.
unfoldable pub window_start : ℕ → Datetime → Option Datetime → Result Datetime
unfolding budget_span
window_start minutes end none = minus end (budget_span minutes)
window_start minutes end (some newest) = Result.◌>>=◌ (plus newest minute) λ start.
    Result.◌>>=◌ (minus end (budget_span minutes))
      λ earliest. ok (if ltb start earliest then earliest else start)

module _ (E : Environment) (K : CandleSources E.State) where
  open E use {State}
  open K use {Source}

  unfoldable pub read_clock : Action State Source Datetime
  read_clock s = let (t, w) = E.now s.world in (ok t, record s { world = w })

  unfoldable pub next_fault : Action State Source Fault
  next_fault s = let (f, w) = E.fault s.world in (ok f, record s { world = w })

  -- A call of the database object.
  abbrev pub on_db : {A : Type 0} → (Database → Result A × Database) → Action State Source A
  on_db call s = let (r, db) = call s.db in (r, record s { db = db })

  unfoldable pub newest_held : String → Action State Source (Option Datetime)
  unfolding next_fault latest_open_time
  newest_held symbol = do fault ← next_fault; on_db (latest_open_time fault symbol)

  unfoldable pub pending_window : String → ℕ → Action State Source (Datetime × Datetime)
  unfolding read_clock newest_held window_end window_start
  pending_window symbol minutes = do
    now ← read_clock
    end ← lift (window_end now)
    newest ← newest_held symbol
    start ← lift (window_start minutes end newest)
    emit (backfill_gap symbol ((end - start) / minute))
    pure (start, end)

  abbrev pub store_source :
      Option Source
      → Service State Source
      → Result (List Candle) × Source × (State × Trace)
      → Result (List Candle) × Service State Source
  store_source none s (r, source, (w, trace)) =
      (r, record s { source = source; world = w; trace = trace })
  store_source (some _) s (r, source, (w, trace)) =
      (r, record s { fallback = some source; world = w; trace = trace })

  -- `self.active_source.fetch(...)`, which changes the source that is active.
  unfoldable pub fetch_active : String → ℤ → ℤ → Action State Source (List Candle)
  fetch_active symbol start end s =
      store_source s.fallback s (K.fetch symbol start end (active_source s) (s.world, s.trace))

  module _ (D : Driver) where
    unfoldable pub write_candles : List Candle → String → Action State Source ℕ
    unfolding upsert_candles next_fault read_clock
    write_candles candles symbol = do
      fault ← next_fault
      now ← read_clock
      written ← on_db (upsert_candles D fault now 500 candles)
      emit (rows_written "market_candles_1m" symbol written)
      pure written

    -- What `ingest_window` does with the candles that a source returned.
    unfoldable pub land : String → List Candle → Action State Source ℕ
    unfolding write_candles
    land symbol [] = pure 0
    land symbol (c ∷ cs) = write_candles (c ∷ cs) symbol

    unfoldable pub ingest_window : String → Datetime → Datetime → Action State Source ℕ
    unfolding fetch_active land to_ms
    ingest_window symbol start end =
        if leb end start
        then pure 0
        else (do candles ← fetch_active symbol (to_ms start) (to_ms end); land symbol candles)
