-- ===== src/Service/Landed/Loop.antt =====
-- The cycles, the loop and the catch-up of ingestion/service.py, and what they leave in the candle
-- table.
use mathlib.Core.Path.{subst}
use crypto_analytics_platfor.Base.{
  ℕ, zero, suc, ◌+◌, ◌-◌, sym, String, List, [], ◌∷◌, Option, none, some, inl, inr, Bool,
  Bool-cases, min, ltb, ◌==◌, length,
}
use crypto_analytics_platfor.Base.Result.{Result, ok, err, fx_error}
use crypto_analytics_platfor.Datetime.{Datetime}
use crypto_analytics_platfor.Db.{Tables, Driver}
use crypto_analytics_platfor.Db.Connection
use crypto_analytics_platfor.Db.Connection.{Database, ensure_symbol, upsert_fx_rate}
use crypto_analytics_platfor.Db.Landed.{Holds, Cast, ensure_symbol_candles, upsert_fx_rate_candles}
use crypto_analytics_platfor.Db.Symbol.{split_symbol}
use crypto_analytics_platfor.Environment.{Environment}
use crypto_analytics_platfor.Fx.{fetch_rate}
use crypto_analytics_platfor.Fx.Quiet.{fetch_rate-Keeps}
use crypto_analytics_platfor.Models.{Candle, FxRate}
use crypto_analytics_platfor.Service.{CandleSources, Config, Service, Action}
use crypto_analytics_platfor.Service.Backfill.{
  Summary, budget_of, insert, register, backfill_symbol, backfill_symbols, release, run_backfill,
}
use crypto_analytics_platfor.Service.Cycle.{
  should_degrade, note_failure, leave_fallback, note_success, gauge_lag, measure_lag, after_lag,
  after_ingest, ingest_pending, try_symbol, try_symbols, conclude, cycle,
}
use crypto_analytics_platfor.Service.Landed.{
  Delivers, AllCast, next_fault-Keeps, read_clock-Keeps, newest_held-Keeps, quiet-Keeps,
  pending_window-Keeps, ingest_window-Keeps,
}
use crypto_analytics_platfor.Service.Refresh.{
  store_rate, fetched, refresh_fx, contained, is_recent, maybe_refresh_fx,
}
use crypto_analytics_platfor.Service.Rules.{Keeps, bind-Keeps}
use crypto_analytics_platfor.Service.Run.{
  Begun, registered, naps, slice, pass, passes, request_stop, shut_down, register_all, start, ended,
  started, run,
}
use crypto_analytics_platfor.Service.Startup.{Waits, wait_for_database-Waits}
use crypto_analytics_platfor.Service.Window.{
  read_clock, next_fault, newest_held, on_db, pending_window,
}

module _ (E : Environment) (K : CandleSources E.State) (c : Config) (D : Driver)
    (P : Candle → Type 0) (delivers : Delivers K P) where
  open E use {State}
  open K use {Source}

  abbrev Kept : Service State Source → Type 0
  Kept = AllCast E K D P delivers

  gauge_lag-Keeps :
      (symbol : String) (newest : Option Datetime) → Keeps Kept (gauge_lag E K c symbol newest)
  unfolding gauge_lag
  gauge_lag-Keeps symbol none s h = h
  gauge_lag-Keeps symbol (some newest) s h =
      bind-Keeps Kept (read_clock E K) _ (read_clock-Keeps E K D P delivers) (λ now s h. h) s h

  measure_lag-Keeps : (symbol : String) → Keeps Kept (measure_lag E K c symbol)
  unfolding measure_lag
  measure_lag-Keeps symbol =
      bind-Keeps Kept (newest_held E K symbol) _ (newest_held-Keeps E K D P delivers symbol)
        (gauge_lag-Keeps symbol)

  ingest_pending-Keeps : (symbol : String) → Keeps Kept (ingest_pending E K c D symbol)
  unfolding ingest_pending
  ingest_pending-Keeps symbol =
      bind-Keeps Kept (pending_window E K symbol c.backfill_minutes) _
        (pending_window-Keeps E K D P delivers symbol c.backfill_minutes)
        λ window. ingest_window-Keeps E K D P delivers symbol window.0 window.1

  lag-Kept :
      (written : ℕ) (r : Result (Unit {0}) × Service State Source)
      → Kept r.1
      → Kept (after_lag E K c written r).1
  lag-Kept written (ok u, s) h = h
  lag-Kept written (err e, s) h = h

  ingest-Kept :
      (lag : Action State Source (Unit {0})) (r : Result ℕ × Service State Source)
      → Keeps Kept lag
      → Kept r.1
      → Kept (after_ingest E K c lag r).1
  ingest-Kept lag (ok written, s) k h = lag-Kept written (lag s) (k s h)
  ingest-Kept lag (err e, s) k h = h

  try_symbols-Kept :
      (symbols : List String) (s : Service State Source)
      → Kept s
      → Kept (try_symbols E K c D symbols s).1
  unfolding try_symbols try_symbol
  try_symbols-Kept [] s h = h
  try_symbols-Kept (symbol ∷ symbols) s h =
      try_symbols-Kept symbols (try_symbol E K c D symbol s).1 (
        ingest-Kept (measure_lag E K c symbol) (ingest_pending E K c D symbol s)
          (measure_lag-Keeps symbol) (ingest_pending-Keeps symbol s h))

  left-Kept :
      (o : Option Source) (s : Service State Source) → Kept s → Kept (leave_fallback E K c o s)
  unfolding leave_fallback
  left-Kept none s h = h
  left-Kept (some f) s h = h

  failure-Kept : (s : Service State Source) → Kept s → Kept (note_failure E K c s)
  unfolding note_failure
  failure-Kept s h =
      elim (Bool-cases (should_degrade E K c (s.consecutive_failures + 1) s.fallback)) [
        | inl e ↦ rw e h
        | inr e ↦ rw e h
      ]

  conclude-Kept :
      (symbols failures : ℕ) (s : Service State Source)
      → Kept s
      → Kept (conclude E K c D symbols failures s)
  unfolding conclude note_success
  conclude-Kept symbols failures s h = elim (Bool-cases (failures == 0)) [
    | inl e ↦ rw e (left-Kept s.fallback s h)
    | inr e ↦ elim (Bool-cases (ltb failures symbols)) [
      | inl f ↦ rw (e, f) h
      | inr f ↦ rw (e, f) (failure-Kept s h)
    ]
  ]

  cycle-Kept : (s : Service State Source) → Kept s → Kept (cycle E K c D s).1
  unfolding cycle
  cycle-Kept s h =
      let tried = try_symbols E K c D c.symbols s in
      let after =
        conclude-Kept (length c.symbols) tried.0.1 tried.1 (try_symbols-Kept c.symbols s h) in
      elim (Bool-cases (tried.0.0 == 0)) [ inl e ↦ rw e after | inr e ↦ rw e after ]

  store_rate-Keeps : (rate : FxRate) → Keeps Kept (store_rate E K c D rate)
  unfolding store_rate
  store_rate-Keeps rate =
      bind-Keeps Kept (next_fault E K) _ (next_fault-Keeps E K D P delivers) λ fault.
        bind-Keeps Kept (read_clock E K) _ (read_clock-Keeps E K D P delivers) λ now.
          bind-Keeps Kept (on_db E K (upsert_fx_rate D fault now rate)) _
            (quiet-Keeps E K D P delivers (upsert_fx_rate D fault now rate)
              (upsert_fx_rate_candles D fault now rate))
            λ changed. bind-Keeps Kept _ _ (λ s h. h) λ u s h. h

  fetched-Kept : (r : Result FxRate × Service State Source) → Kept r.1 → Kept (fetched E K c D r).1
  fetched-Kept (ok rate, s) h = store_rate-Keeps rate s h
  fetched-Kept (err fx_error, s) h = h
  fetched-Kept (err e, s) h = h

  contained-Kept : (r : Result Bool × Service State Source) → Kept r.1 → Kept (contained E K c D r)
  contained-Kept (ok changed, s) h = h
  contained-Kept (err e, s) h = h

  refresh_fx-Keeps : Keeps Kept (refresh_fx E K c D)
  unfolding refresh_fx
  refresh_fx-Keeps s h =
      fetched-Kept (fetch_rate E Source c.fx_base c.fx_quote s)
        (fetch_rate-Keeps E Source (λ db. Holds (Cast D P) db.tables) c.fx_base c.fx_quote s h)

  refresh-Kept : (s : Service State Source) → Kept s → Kept (maybe_refresh_fx E K c D s)
  unfolding maybe_refresh_fx
  refresh-Kept s h =
      let (now, w) = E.now s.world in
      let (later, w') = E.now w in
      let due = record s { world = w'; last_fx_refresh = later } in
      elim (Bool-cases (is_recent E K c D now s.last_fx_refresh)) [
        | inl e ↦ rw e h
        | inr e ↦ rw e (contained-Kept (refresh_fx E K c D due) (refresh_fx-Keeps due h))
      ]

  naps-Kept :
      (k remaining : ℕ) (s : Service State Source)
      → Kept s
      → Kept (naps E K c D k remaining s).service
  unfolding naps request_stop
  naps-Kept zero remaining s h = elim (Bool-cases (remaining == 0)) [
    | inl e ↦ rw e h
    | inr e ↦ rw e h
  ]
  naps-Kept (suc k) remaining s h = elim (Bool-cases (remaining == 0)) [
    | inl e ↦ rw e h
    | inr e ↦ rw e (naps-Kept k (remaining - min slice remaining) _ h)
  ]

  pass-Kept : (k : ℕ) (s : Service State Source) → Kept s → Kept (pass E K c D k s).service
  unfolding pass
  pass-Kept k s h = naps-Kept k _ _ (refresh-Kept _ (cycle-Kept _ h))

  -- The condition of a service that may still run.
  abbrev pub IfEnded : Option (Service State Source) → Type 0
  IfEnded none = Unit
  IfEnded (some t) = Kept t

  passes-Kept : (fuel k : ℕ) (s : Service State Source) → Kept s → IfEnded (passes E K c D fuel k s)
  unfolding passes request_stop
  passes-Kept zero k s h = tt
  passes-Kept (suc fuel) zero s h = h
  passes-Kept (suc fuel) (suc k) s h =
      passes-Kept fuel (pass E K c D k s).until_signal (pass E K c D k s).service (pass-Kept k s h)

  register-Keeps : (symbol : String) → Keeps Kept (register E K c D symbol)
  unfolding register
  register-Keeps symbol =
      bind-Keeps Kept (next_fault E K) _ (next_fault-Keeps E K D P delivers) λ fault.
        quiet-Keeps E K D P delivers
          (ensure_symbol fault symbol (split_symbol symbol).0 (split_symbol symbol).1)
          (ensure_symbol_candles fault symbol (split_symbol symbol).0 (split_symbol symbol).1)

  register_all-Keeps : (symbols : List String) → Keeps Kept (register_all E K c D symbols)
  unfolding register_all
  register_all-Keeps [] s h = h
  register_all-Keeps (symbol ∷ symbols) s h =
      bind-Keeps Kept (register E K c D symbol) _ (register-Keeps symbol)
        (λ u. register_all-Keeps symbols) s h

  -- How the start and `run` may end.
  abbrev pub IfReturned : {A : Type 0} → Option (Result A × Service State Source) → Type 0
  IfReturned none = Unit
  IfReturned (some (r, t)) = Kept t

  registered-Kept :
      (tables : Tables) (o : Begun E K c D)
      → Holds (Cast D P) tables
      → Waits E K tables o
      → IfReturned (registered E K c D o)
  registered-Kept tables none h k = tt
  registered-Kept tables (some (ok u, s)) h k =
      register_all-Keeps c.symbols s (subst (Holds (Cast D P)) (sym k.0) h)
  registered-Kept tables (some (err e, s)) h k = subst (Holds (Cast D P)) (sym k.0) h

  start-Kept : (s : Service State Source) → Kept s → IfReturned (start E K c D s)
  unfolding start
  start-Kept s h = registered-Kept s.db.tables _ h (wait_for_database-Waits E K 120 _)

  ended-Kept : (o : Option (Service State Source)) → IfEnded o → IfReturned (ended E K c D o)
  unfolding shut_down Connection.close
  ended-Kept none h = h
  ended-Kept (some t) h = h

  started-Kept :
      (loop : Service State Source → Option (Service State Source)) (o : Begun E K c D)
      → IfReturned o
      → ((t : Service State Source) → Kept t → IfEnded (loop t))
      → IfReturned (started E K c D loop o)
  started-Kept loop none h k = tt
  started-Kept loop (some (ok u, t)) h k = ended-Kept (loop t) (k t h)
  started-Kept loop (some (err e, t)) h k = h

  pub run-Kept :
      (fuel k : ℕ) (s : Service State Source) → Kept s → IfReturned (run E K c D fuel k s)
  unfolding run
  run-Kept fuel k s h =
      started-Kept (passes E K c D fuel k) (start E K c D s) (start-Kept s h) (passes-Kept fuel k)

  backfill_symbols-Keeps :
      (budget : ℕ) (symbols : List String) (summary : Summary)
      → Keeps Kept (backfill_symbols E K c D budget symbols summary)
  unfolding backfill_symbols backfill_symbol
  backfill_symbols-Keeps budget [] summary s h = h
  backfill_symbols-Keeps budget (symbol ∷ symbols) summary s h =
      bind-Keeps Kept (backfill_symbol E K c D budget symbol) _
        (bind-Keeps Kept (register E K c D symbol) _ (register-Keeps symbol) λ u.
          bind-Keeps Kept (pending_window E K symbol budget) _
            (pending_window-Keeps E K D P delivers symbol budget)
            λ window. ingest_window-Keeps E K D P delivers symbol window.0 window.1)
        (λ written. backfill_symbols-Keeps budget symbols (insert symbol written summary)) s h

  pub run_backfill-Kept : (minutes : Option ℕ) → Keeps Kept (run_backfill E K c D minutes)
  unfolding run_backfill release Connection.close
  run_backfill-Kept minutes s h =
      backfill_symbols-Keeps (budget_of minutes c.backfill_minutes) c.symbols [] s h
