-- ===== src/Service/Budget.antt =====
-- The window that the service asks for.
use crypto_analytics_platfor.Base.{
  ℕ, ◌+◌, ◌-◌, ◌/◌, ◌≤◌, ◌<◌, ◌≡◌, refl, sym, String, ◌∷◌, Option, none, some, ◌⊎◌, inl, inr, arith,
}
use crypto_analytics_platfor.Base.Result.{Result, ok, err, bind_elim, Result-cases}
use crypto_analytics_platfor.Datetime.{Datetime, minute, past_max, plus, minus, floor_minute}
use crypto_analytics_platfor.Datetime.Minutes.{
  IsAligned, floor_minute_bounds, plus-eq-ok, minus-eq-ok, plus_lem, minus_lem,
}
use crypto_analytics_platfor.Db.Atomic.{IsAtomic, cursor-IsAtomic}
use crypto_analytics_platfor.Db.Connection.{Database, latest_open_time}
use crypto_analytics_platfor.Db.Statements.{max_open_time}
use crypto_analytics_platfor.Environment.{Environment, Fault}
use crypto_analytics_platfor.Metrics.{Trace, backfill_gap}
use crypto_analytics_platfor.Service.{CandleSources, Service, lift, emit}
use crypto_analytics_platfor.Service.Rules.{Ensures, bind-Ensures, lift-Ensures}
use crypto_analytics_platfor.Service.Window.{
  budget_span, window_end, window_start, read_clock, next_fault, newest_held, pending_window,
}
use crypto_analytics_platfor.Sources.Grid.{last_closed_minute}

-- The end lies on the grid: it is the start of the minute that is still forming.
window_end_bounds :
    (now : Datetime) {end : Datetime}
    → window_end now ≡ ok end
    → IsAligned end × (end ≤ now) × (now < end + minute) × (end < past_max)
unfolding window_end last_closed_minute
window_end_bounds now {end} h = bind_elim (minus (floor_minute now) minute) _ h λ t e f.
    omega (
      arith,
      floor_minute_bounds now,
      minus-eq-ok (floor_minute now) minute e,
      plus-eq-ok t minute f,
    )

-- What the window starts at: the minute after the newest candle, or the budget's length before the
-- end, whichever is later.
abbrev pub StartsAt : ℕ → Datetime → Option Datetime → Datetime → Type 0
StartsAt minutes end none start = start + budget_span minutes ≡ end
StartsAt minutes end (some newest) start =
    (newest + minute ≤ start)
    × (end ≤ start + budget_span minutes)
    × ((start ≡ newest + minute) ⊎ (start + budget_span minutes ≡ end))

window_start-StartsAt :
    (minutes : ℕ) (end : Datetime) (newest : Option Datetime) {start : Datetime}
    → window_start minutes end newest ≡ ok start
    → StartsAt minutes end newest start
unfolding window_start
window_start-StartsAt minutes end none h = minus-eq-ok end (budget_span minutes) h
window_start-StartsAt minutes end (some newest) h =
    bind_elim (plus newest minute) _ h λ first e rest.
      bind_elim (minus end (budget_span minutes)) _ rest λ earliest f last.
        ground (arith, plus-eq-ok newest minute e, minus-eq-ok end (budget_span minutes) f)

module _ (E : Environment) (K : CandleSources E.State) where
  open E use {State}
  open K use {Source}

  -- The window that `pending_window` returns, by the clock and the newest candle that it read.
  pub record IsWindow (before : Service State Source) (symbol : String) (minutes : ℕ)
      (window : Datetime × Datetime) (s : Service State Source) : Type 0 where
    pub now : Datetime
    pub read : now ≡ (E.now before.world).0
    pub newest : Option Datetime
    pub held : newest ≡ max_open_time symbol before.db.tables.candles
    pub ends : IsAligned window.1 × (window.1 ≤ now) × (now < window.1 + minute)
    pub starts : StartsAt minutes window.1 newest window.0
    pub bounded : window.1 ≤ window.0 + budget_span minutes
    pub gauge :
        (trace : Trace) × (s.trace ≡ backfill_gap symbol ((window.1 - window.0) / minute) ∷ trace)

  bounded_of :
      (minutes : ℕ) (end start : Datetime) (newest : Option Datetime)
      → StartsAt minutes end newest start
      → end ≤ start + budget_span minutes
  bounded_of minutes end start none h = omega arith
  bounded_of minutes end start (some newest) h = h.1

  clock-Ensures :
      (s : Service State Source)
      → Ensures (λ now s'. (now ≡ (E.now s.world).0) × (s'.db ≡ s.db)) (read_clock E K s)
  unfolding read_clock
  clock-Ensures s = (refl, refl)

  end-Ensures :
      (before : Service State Source) (now : Datetime) (s : Service State Source)
      → s.db ≡ before.db
      → Ensures
          (λ end s'. (window_end now ≡ ok end) × (s'.db ≡ before.db))
          (lift (window_end now) s)
  end-Ensures before now s e = elim (Result-cases (window_end now)) [
    | inl (t, f) ↦ rw f (refl, e)
    | inr (x, f) ↦ rw f tt
  ]

  held-Ensures :
      (symbol : String) (fault : Fault) (db : Database) (s : Service State Source)
      (r : Result (Option Datetime) × Database)
      → IsAtomic fault (λ t. ok (t, max_open_time symbol t.candles)) db r
      → Ensures
          (λ newest s'. newest ≡ max_open_time symbol db.tables.candles)
          (r.0, record s { db = r.1 })
  held-Ensures symbol fault db s (ok a, db') h = cc (h.0)
  held-Ensures symbol fault db s (err e, db') h = tt

  fault-Ensures :
      (before s : Service State Source)
      → s.db ≡ before.db
      → Ensures (λ fault s'. s'.db ≡ before.db) (next_fault E K s)
  unfolding next_fault
  fault-Ensures before s e = e

  newest_held-Ensures :
      (symbol : String) (before s : Service State Source)
      → s.db ≡ before.db
      → Ensures
          (λ newest s'. newest ≡ max_open_time symbol before.db.tables.candles)
          (newest_held E K symbol s)
  unfolding newest_held latest_open_time
  newest_held-Ensures symbol before s e =
      bind-Ensures (λ fault s'. s'.db ≡ before.db)
        (λ newest s'. newest ≡ max_open_time symbol before.db.tables.candles) (next_fault E K) _ s
        (fault-Ensures before s e)
        λ fault s' e'. rw (sym e') (
          held-Ensures symbol fault s'.db s' (latest_open_time fault symbol s'.db)
            (cursor-IsAtomic fault (λ t. ok (t, max_open_time symbol t.candles)) s'.db))

  -- Whatever the database and the clock say: if `pending_window` returns, the window ends with the
  -- last closed minute of the clock it read, starts behind the newest candle in the tables or at
  -- the budget, whichever is later, is never longer than the budget, and its length in minutes is
  -- on the gauge.
  pub pending_window-IsWindow :
      (symbol : String) (minutes : ℕ) (s : Service State Source)
      → Ensures (IsWindow s symbol minutes) (pending_window E K symbol minutes s)
  unfolding pending_window
  pending_window-IsWindow symbol minutes s =
      bind-Ensures (λ now s'. (now ≡ (E.now s.world).0) × (s'.db ≡ s.db))
        (IsWindow s symbol minutes) (read_clock E K) _ s (clock-Ensures s)
        λ now s1 at_clock.
          bind-Ensures (λ end s'. (window_end now ≡ ok end) × (s'.db ≡ s.db))
            (IsWindow s symbol minutes) (lift (window_end now)) _ s1
            (end-Ensures s now s1 at_clock.1)
            λ end s2 ends.
              bind-Ensures (λ newest s'. newest ≡ max_open_time symbol s.db.tables.candles)
                (IsWindow s symbol minutes) (newest_held E K symbol) _ s2
                (newest_held-Ensures symbol s s2 ends.1)
                λ newest s3 held.
                  bind-Ensures (λ start s'. window_start minutes end newest ≡ ok start)
                    (IsWindow s symbol minutes) (lift (window_start minutes end newest)) _ s3
                    (lift-Ensures (window_start minutes end newest) s3)
                    λ start s4 starts.
                      bind-Ensures
                        (λ u s'. s'.trace ≡ backfill_gap symbol ((end - start) / minute) ∷ s4.trace)
                        (IsWindow s symbol minutes)
                        (emit (backfill_gap symbol ((end - start) / minute))) _ s4 refl
                        λ u s5 shown.
                          let at = window_start-StartsAt minutes end newest starts in
                          let (aligned, closed, forming, _) = window_end_bounds now ends.0 in
                          record {
                            now = now;
                            read = at_clock.0;
                            newest = newest;
                            held = held;
                            ends = (aligned, closed, forming);
                            starts = at;
                            bounded = bounded_of minutes end start newest at;
                            gauge = (s4.trace, shown);
                          }

-- Once the database holds the last closed minute, nothing is pending: the window starts at its end,
-- for every budget that does not reach back before the calendar.
pub window_start_healed :
    (minutes : ℕ) (now newest : Datetime) {end : Datetime}
    → window_end now ≡ ok end
    → newest + minute ≡ end
    → budget_span minutes ≤ end
    → window_start minutes end (some newest) ≡ ok end
unfolding window_start
window_start_healed minutes now newest {end} ends held fits =
    let (_, _, _, below) = window_end_bounds now ends in
    rw (plus_lem newest minute (omega arith), minus_lem end (budget_span minutes) fits)
      (ground arith)
