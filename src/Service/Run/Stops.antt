-- ===== src/Service/Run/Stops.antt =====
-- The run ends, whenever the signal comes.
use crypto_analytics_platfor.Base.{
  ℕ, zero, suc, ◌-◌, ◌≤◌, ◌<◌, ◌≡◌, refl, ◌⊎◌, inl, inr, true, false, ◌∷◌, Option, none, some, min,
  arith, ◌==◌, Bool-cases,
}
use crypto_analytics_platfor.Base.Result.{Result, ok, err, Exception}
use crypto_analytics_platfor.Db.{Driver}
use crypto_analytics_platfor.Db.Connection
use crypto_analytics_platfor.Db.Connection.{absent}
use crypto_analytics_platfor.Environment.{Environment}
use crypto_analytics_platfor.Metrics.{Trace, up}
use crypto_analytics_platfor.Service.{CandleSources, Config, Service}
use crypto_analytics_platfor.Service.Run.{
  slice, request_stop, naps, pass, passes, shut_down, Begun, registered, start, ended, started, run,
}
use crypto_analytics_platfor.Service.Startup.{IsTicking, HasEnded, wait_for_database-HasEnded}

module _ (E : Environment) (K : CandleSources E.State) (c : Config) (D : Driver) where
  open E use {State}
  open K use {Source}

  naps-le :
      (k remaining : ℕ) (s : Service State Source) → (naps E K c D k remaining s).until_signal ≤ k
  unfolding naps
  naps-le zero remaining s = elim (Bool-cases (remaining == 0)) [
    | inl e ↦ rw e (omega arith)
    | inr e ↦ rw e (omega arith)
  ]
  naps-le (suc k) remaining s = elim (Bool-cases (remaining == 0)) [
    | inl e ↦ rw e (omega arith)
    | inr e ↦ rw e (
        omega (
          arith,
          naps-le k (remaining - min slice remaining)
              (record s { world = E.sleep (min slice remaining) s.world }),
        ))
  ]

  pass-le : (k : ℕ) (s : Service State Source) → (pass E K c D k s).until_signal ≤ k
  unfolding pass
  pass-le k s = naps-le k _ _

  -- The loop has ended, because it was asked to.
  abbrev pub Stopped : Option (Service State Source) → Type 0
  Stopped out = (t : Service State Source) × (out ≡ some t) × (t.stopping ≡ true)

  passes-Stopped :
      (fuel k : ℕ) (s : Service State Source) → k < fuel → Stopped (passes E K c D fuel k s)
  unfolding passes request_stop
  passes-Stopped zero k s h = absurd (omega arith)
  passes-Stopped (suc fuel) zero s h = (record s { stopping = true }, refl, refl)
  passes-Stopped (suc fuel) (suc k) s h =
      passes-Stopped fuel (pass E K c D k s).until_signal (pass E K c D k s).service
        (omega (arith, pass-le k s))

  -- How `run` ends: with 0, asked to stop, the connection closed, and the gauge of the service at 0;
  -- or by an exception that was raised before the loop.
  abbrev pub Ends : Service State Source → Option (Result ℕ × Service State Source) → Type 0
  Ends s out =
      (r : Result ℕ) × (t : Service State Source) × (out ≡ some (r, t))
      × (((r ≡ ok 0)
            × (t.stopping ≡ true)
            × (t.db.handle ≡ absent)
            × ((rest : Trace) × (t.trace ≡ up false ∷ rest)))
          ⊎ ((e : Exception) × (r ≡ err e) × (start E K c D s ≡ some (err e, t))))

  ended-Ends :
      (s : Service State Source) (out : Option (Service State Source))
      → Stopped out
      → Ends s (ended E K c D out)
  unfolding shut_down Connection.close
  ended-Ends s none (t, e, h) = absurd (cc)
  ended-Ends s (some u) (t, e, h) =
      (ok 0, shut_down E K c D u, refl, inl (refl, cc, refl, (_, refl)))

  registered-HasEnded : (o : Begun E K c D) → HasEnded E K o → HasEnded E K (registered E K c D o)
  registered-HasEnded none (r, t, e) = absurd (cc)
  registered-HasEnded (some (ok u, s)) h = (_, _, refl)
  registered-HasEnded (some (err x, s)) h = (err x, s, refl)

  start-HasEnded : (s : Service State Source) → IsTicking E → HasEnded E K (start E K c D s)
  unfolding start
  start-HasEnded s ticking = registered-HasEnded _ (wait_for_database-HasEnded E K 120 _ ticking)

  started-Ends :
      (s : Service State Source) (loop : Service State Source → Option (Service State Source))
      (o : Begun E K c D)
      → start E K c D s ≡ o
      → HasEnded E K o
      → ((t : Service State Source) → Stopped (loop t))
      → Ends s (started E K c D loop o)
  started-Ends s loop none e (r, t, f) h = absurd (cc)
  started-Ends s loop (some (ok u, t)) e f h = ended-Ends s (loop t) (h t)
  started-Ends s loop (some (err x, t)) e f h = (err x, t, refl, inr (x, refl, e))

  -- By a clock that ticks, whenever the signal comes, after any number `k` of reads of `_stopping`, and
  -- whatever the exchange and the database do: `run` ends within `k + 1` passes. It returns 0, asked to
  -- stop, with the connection closed and the gauge of the service at 0, or it ends with what was raised
  -- before the loop.
  pub run-Ends :
      (fuel k : ℕ) (s : Service State Source)
      → IsTicking E
      → k < fuel
      → Ends s (run E K c D fuel k s)
  unfolding run
  run-Ends fuel k s ticking h =
      started-Ends s (passes E K c D fuel k) (start E K c D s) refl (start-HasEnded s ticking)
        (λ t. passes-Stopped fuel k t h)
