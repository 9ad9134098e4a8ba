-- ===== src/Service/Refresh.antt =====
-- `refresh_fx` and `maybe_refresh_fx` of ingestion/service.py.
use Prim.Native.String.{◌++◌ as ◌<>◌}
use crypto_analytics_platfor.Base.{ℕ, Bool, false, not, ◌∷◌, pos, ◌==◌, if◌then◌else◌}
use crypto_analytics_platfor.Base.Int.{◌-ℤ◌, ◌*ℤ◌, ltb_ℤ}
use crypto_analytics_platfor.Base.Result.{Result, ok, err, fx_error}
use crypto_analytics_platfor.Db.{Driver}
use crypto_analytics_platfor.Db.Connection.{upsert_fx_rate}
use crypto_analytics_platfor.Environment.{Environment}
use crypto_analytics_platfor.Fx.{fetch_rate}
use crypto_analytics_platfor.Metrics.{error, api, unexpected, rows_written}
use crypto_analytics_platfor.Models.{FxRate}
use crypto_analytics_platfor.Service.{
  CandleSources, Config, Service, Action, ◌>>=◌, ◌>>◌, pure, emit,
}
use crypto_analytics_platfor.Service.Window.{read_clock, next_fault, on_db}

module _ (E : Environment) (K : CandleSources E.State) (c : Config) (D : Driver) where
  open E use {State}
  open K use {Source}

  -- Behind the try: the rate is written, and the answer is whether it changed a row.
  unfoldable pub store_rate : FxRate → Action State Source Bool
  unfolding next_fault read_clock upsert_fx_rate
  store_rate rate = do
    fault ← next_fault E K
    now ← read_clock E K
    changed ← on_db E K (upsert_fx_rate D fault now rate)
    emit (rows_written "fx_rates" (rate.base <> rate.quote) changed)
    pure (not (changed == 0))

  -- `except FxError`: any other exception goes on.
  abbrev pub fetched : Result FxRate × Service State Source → Result Bool × Service State Source
  fetched (ok rate, s) = store_rate rate s
  fetched (err fx_error, s) = (ok false, record s { trace = error api ∷ s.trace })
  fetched (err e, s) = (err e, s)

  unfoldable pub refresh_fx : Action State Source Bool
  unfolding fetch_rate store_rate
  refresh_fx s = fetched (fetch_rate E Source c.fx_base c.fx_quote s)

  -- `except Exception`
  abbrev pub contained : Result Bool × Service State Source → Service State Source
  contained (ok changed, s) = s
  contained (err e, s) = record s { trace = error unexpected ∷ s.trace }

  -- `time.time() - self._last_fx_refresh < self.config.fx_refresh_seconds`, in microseconds.
  unfoldable pub is_recent : ℕ → ℕ → Bool
  unfolding ◌-ℤ◌ ◌*ℤ◌
  is_recent now last = ltb_ℤ (pos now -ℤ pos last) (c.fx_refresh_seconds *ℤ 1000000)

  -- The clock is read twice: for the test, and for the new time of the refresh.
  unfoldable pub maybe_refresh_fx : Service State Source → Service State Source
  unfolding is_recent refresh_fx
  maybe_refresh_fx s =
      let (now, w) = E.now s.world in
      let (later, w') = E.now w in
      if is_recent now s.last_fx_refresh
      then record s { world = w }
      else contained (refresh_fx (record s { world = w'; last_fx_refresh = later }))
