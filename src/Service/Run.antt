-- ===== src/Service/Run.antt =====
-- `run` of ingestion/service.py: the loop over the cycles until a signal asks it to stop.
pub mod Stops
use crypto_analytics_platfor.Base.{
  ℕ, zero, suc, ◌+◌, ◌-◌, ◌*◌, min, String, Bool, true, false, List, [], ◌∷◌, Option, none, some,
  ◌==◌, if◌then◌else◌,
}
use crypto_analytics_platfor.Base.Int.{ℤ, pos_part, ◌*ℤ◌}
use crypto_analytics_platfor.Base.Result.{Result, ok, err, Exception}
use crypto_analytics_platfor.Db.{Driver}
use crypto_analytics_platfor.Db.Connection
use crypto_analytics_platfor.Environment.{Environment}
use crypto_analytics_platfor.Metrics.{up, set_active_source}
use crypto_analytics_platfor.Service.{
  CandleSources, Config, Service, Action, ◌>>=◌, ◌>>◌, pure, active_source,
}
use crypto_analytics_platfor.Service.Backfill.{register}
use crypto_analytics_platfor.Service.Cycle.{cycle}
use crypto_analytics_platfor.Service.Refresh.{maybe_refresh_fx}
use crypto_analytics_platfor.Service.Startup.{wait_for_database}

-- One second, in microseconds.
abbrev pub slice : ℕ
slice = 1000000

-- The state of the loop: the service, and how many more times `_stopping` is read before the signal
-- has come. `request_stop` sets `_stopping`, and nothing resets it.
pub record Loop (S Source : Type 0) : Type 0 where
  pub service : Service S Source
  pub until_signal : ℕ

module _ (E : Environment) (K : CandleSources E.State) (c : Config) (D : Driver) where
  open E use {State}
  open K use {Source}

  -- `request_stop`
  unfoldable pub request_stop : Service State Source → Service State Source
  request_stop s = record s { stopping = true }

  -- `while remaining > 0 and not self._stopping`, by the reads of `_stopping` that are left. Lengths of
  -- time are in microseconds.
  unfoldable pub naps : ℕ → ℕ → Service State Source → Loop State Source
  unfolding request_stop
  naps zero remaining s =
      if remaining == 0
      then record { service = s; until_signal = 0 }
      else record { service = request_stop s; until_signal = 0 }
  naps (suc k) remaining s =
      let nap = min slice remaining in
      let slept = record s { world = E.sleep nap s.world } in
      let rest = naps k (remaining - nap) slept in
      if remaining == 0 then record { service = s; until_signal = suc k } else rest

  -- One pass: the cycle, the FX refresh, and the remainder of the interval.
  unfoldable pub pass : ℕ → Service State Source → Loop State Source
  unfolding cycle maybe_refresh_fx naps ◌*ℤ◌
  pass k s =
      let (started, w) = E.monotonic s.world in
      let done = (cycle E K c D (record s { world = w })).1 in
      let refreshed = maybe_refresh_fx E K c D done in
      let (ended, w') = E.monotonic refreshed.world in
      naps k (pos_part (c.interval_seconds *ℤ 1000000) - (ended - started))
        (record refreshed { world = w' })

  -- `while not self._stopping`, on fuel: `none` says that it still runs.
  unfoldable pub passes : ℕ → ℕ → Service State Source → Option (Service State Source)
  unfolding pass request_stop
  passes zero k s = none
  passes (suc fuel) zero s = some (request_stop s)
  passes (suc fuel) (suc k) s = let next = pass k s in passes fuel next.until_signal next.service

  -- `finally`
  unfoldable pub shut_down : Service State Source → Service State Source
  unfolding Connection.close
  shut_down s =
      let w = K.close (active_source s) s.world in
      record s {
        world = K.close s.source w;
        db = Connection.close s.db;
        trace = up false ∷ s.trace;
      }

  unfoldable pub register_all : List String → Action State Source (Unit {0})
  unfolding register
  register_all [] = pure tt
  register_all (symbol ∷ symbols) = register E K c D symbol >> register_all symbols

  abbrev pub Begun : Type 0
  Begun = Option (Result (Unit {0}) × Service State Source)

  abbrev pub registered : Begun → Begun
  registered none = none
  registered (some (ok u, s)) = some (register_all c.symbols s)
  registered (some (err e, s)) = some (err e, s)

  -- What comes before the loop: an exception of it leaves `run`. `none` says that it still waits for the
  -- database.
  unfoldable pub start : Service State Source → Begun
  unfolding wait_for_database register_all set_active_source
  start s =
      let t = record s { trace = up true ∷ set_active_source c.source s.trace } in
      registered (wait_for_database E K 120 t)

  abbrev pub ended : Option (Service State Source) → Option (Result ℕ × Service State Source)
  ended none = none
  ended (some s) = some (ok 0, shut_down s)

  abbrev pub started :
      (Service State Source → Option (Service State Source))
      → Begun
      → Option (Result ℕ × Service State Source)
  started loop none = none
  started loop (some (ok u, s)) = ended (loop s)
  started loop (some (err e, s)) = some (err e, s)

  -- The signal comes at the k-th read of `_stopping`.
  unfoldable pub run : ℕ → ℕ → Service State Source → Option (Result ℕ × Service State Source)
  unfolding start passes shut_down
  run fuel k s = started (passes fuel k) (start s)
