-- ===== src/Service/Startup.antt =====
-- `wait_for_database` of ingestion/service.py.
use crypto_analytics_platfor.Base.{
  ◌⊎◌, ◌∙◌, ℕ, zero, suc, ◌+◌, ◌*◌, ◌/◌, ◌≤◌, ◌<◌, ◌≡◌, refl, arith, ltb, le→ltb, inl, inr, Option,
  none, some, Bool-cases, if◌then◌else◌,
}
use mathlib.Core.Path.{subst}
use crypto_analytics_platfor.Base.Result.{Result, ok, err, runtime_error}
use crypto_analytics_platfor.Datetime.{Datetime}
use crypto_analytics_platfor.Db.{Tables}
use crypto_analytics_platfor.Db.Connection.{
  Handle, Database, absent, closed, live, aborted, open_handle, connect,
}
use crypto_analytics_platfor.Environment.{
  Fault, no_fault, connect_fails, statement_fails, commit_fails, Environment,
}
use crypto_analytics_platfor.Service.{CandleSources, Service}

-- Three seconds, in microseconds.
abbrev pub nap : ℕ
nap = 3000000

-- A clock that a sleep moves by its length at least, and that nothing puts back.
pub record IsTicking (E : Environment) : Type 0 where
  pub sleeps : (d : ℕ) (w : E.State) → (E.now w).0 + d ≤ (E.now (E.sleep d w)).0
  pub reads : (w : E.State) → (E.now w).0 ≤ (E.now (E.now w).1).0
  pub fails : (w : E.State) → (E.now w).0 ≤ (E.now (E.fault w).1).0

module _ (E : Environment) (K : CandleSources E.State) where
  open E use {State}
  open K use {Source}

  -- The wait so far: `none` says that it still waits.
  abbrev pub Wait : Type 0
  Wait = Service State Source → Option (Result (Unit {0}) × Service State Source)

  -- The try: connected, or a sleep of three seconds and the loop again.
  unfoldable pub settle :
      Wait
      → Result (Unit {0}) × Service State Source
      → Option (Result (Unit {0}) × Service State Source)
  settle again (ok u, s) = some (ok u, s)
  settle again (err e, s) = again (record s { world = E.sleep nap s.world })

  unfoldable pub try_connect : Service State Source → Result (Unit {0}) × Service State Source
  unfolding connect
  try_connect s =
      let (fault, w) = E.fault s.world in
      let (r, db) = connect fault s.db in (r, record s { world = w; db = db })

  -- `while time.time() < deadline`, on fuel; behind the loop, the RuntimeError.
  unfoldable pub wait_rounds : ℕ → Datetime → Wait
  unfolding settle try_connect
  wait_rounds zero deadline s =
      let (now, w) = E.now s.world in
      if ltb now deadline then none else some (err runtime_error, record s { world = w })
  wait_rounds (suc fuel) deadline s =
      let (now, w) = E.now s.world in
      let here = record s { world = w } in
      let next_round = settle (wait_rounds fuel deadline) (try_connect here) in
      if ltb now deadline then next_round else some (err runtime_error, here)

  -- From the timeout in seconds.
  unfoldable pub wait_for_database : ℕ → Wait
  unfolding wait_rounds
  wait_for_database timeout s =
      let (now, w) = E.now s.world in
      wait_rounds (timeout / 3 + 1) (now + timeout * 1000000) (record s { world = w })

  settle_cong :
      (f g : Wait) (r : Result (Unit {0}) × Service State Source)
      → f (record r.1 { world = E.sleep nap r.1.world })
        ≡ g (record r.1 { world = E.sleep nap r.1.world })
      → settle f r ≡ settle g r
  unfolding settle
  settle_cong f g (ok u, s) h = refl
  settle_cong f g (err e, s) h = h

  -- By a clock that ticks, waiting for the database never stops for want of fuel: every number of
  -- rounds that covers the time left to the deadline at three seconds each gives the same run.
  pub wait_rounds_fuel :
      (f g : ℕ) (deadline : Datetime) (s : Service State Source)
      → IsTicking E
      → deadline < (E.now s.world).0 + f * nap
      → deadline < (E.now s.world).0 + g * nap
      → wait_rounds f deadline s ≡ wait_rounds g deadline s
  unfolding wait_rounds try_connect
  wait_rounds_fuel zero zero deadline s ticking hf hg = refl
  wait_rounds_fuel zero (suc g) deadline s ticking hf hg =
      rw (le→ltb (E.now s.world).0 deadline (omega arith)) refl
  wait_rounds_fuel (suc f) zero deadline s ticking hf hg =
      rw (le→ltb (E.now s.world).0 deadline (omega arith)) refl
  wait_rounds_fuel (suc f) (suc g) deadline s ticking hf hg =
      let w = (E.now s.world).1 in
      let w' = (E.fault w).1 in
      elim (Bool-cases (ltb (E.now s.world).0 deadline)) [
        | inl early ↦ rw early (
            settle_cong (wait_rounds f deadline) (wait_rounds g deadline) _ (
              wait_rounds_fuel f g deadline _ ticking
                (omega (arith, ticking.reads s.world, ticking.fails w, ticking.sleeps nap w'))
                (omega (arith, ticking.reads s.world, ticking.fails w, ticking.sleeps nap w'))))
        | inr late ↦ rw late refl
      ]

  abbrev pub IsOpen : Handle → Type 0
  IsOpen live = Unit
  IsOpen aborted = Unit
  IsOpen _ = ⊥

  -- How the wait ends, from the tables it started on: connected, or with a RuntimeError; the tables are
  -- left alone.
  abbrev pub Waits : Tables → Option (Result (Unit {0}) × Service State Source) → Type 0
  Waits tables none = Unit
  Waits tables (some (r, s)) =
      (s.db.tables ≡ tables) × (((r ≡ ok tt) × IsOpen s.db.handle) ⊎ (r ≡ err runtime_error))

  -- The wait has ended.
  abbrev pub HasEnded : Option (Result (Unit {0}) × Service State Source) → Type 0
  HasEnded out = (r : Result (Unit {0})) × (s : Service State Source) × (out ≡ some (r, s))

  opened :
      (h : Handle) (fault : Fault) (db : Database)
      → db.handle ≡ h
      → ((open_handle h fault db).1.tables ≡ db.tables)
        × ((open_handle h fault db).0 ≡ ok tt → IsOpen (open_handle h fault db).1.handle)
  opened live fault db e = (refl, λ r. rw e tt)
  opened aborted fault db e = (refl, λ r. rw e tt)
  opened absent connect_fails db e = (refl, λ r. absurd cc)
  opened closed connect_fails db e = (refl, λ r. absurd cc)
  opened absent no_fault db e = (refl, λ r. tt)
  opened closed no_fault db e = (refl, λ r. tt)
  opened absent (statement_fails w) db e = (refl, λ r. tt)
  opened closed (statement_fails w) db e = (refl, λ r. tt)
  opened absent (commit_fails a w) db e = (refl, λ r. tt)
  opened closed (commit_fails a w) db e = (refl, λ r. tt)

  settle-Waits :
      (again : Wait) (tables : Tables) (r : Result (Unit {0}) × Service State Source)
      → r.1.db.tables ≡ tables
      → (r.0 ≡ ok tt → IsOpen r.1.db.handle)
      → ((s : Service State Source) → s.db.tables ≡ tables → Waits tables (again s))
      → Waits tables (settle again r)
  unfolding settle
  settle-Waits again tables (ok tt, s) same alive k = (same, inl (refl, alive refl))
  settle-Waits again tables (err e, s) same alive k =
      k (record s { world = E.sleep nap s.world }) same

  wait_rounds-Waits :
      (fuel : ℕ) (deadline : Datetime) (tables : Tables) (s : Service State Source)
      → s.db.tables ≡ tables
      → Waits tables (wait_rounds fuel deadline s)
  unfolding wait_rounds try_connect connect
  wait_rounds-Waits zero deadline tables s h = elim (Bool-cases (ltb (E.now s.world).0 deadline)) [
    | inl early ↦ rw early tt
    | inr late ↦ rw late (h, inr refl)
  ]
  wait_rounds-Waits (suc fuel) deadline tables s h =
      let at_open = opened s.db.handle (E.fault (E.now s.world).1).0 s.db refl in
      elim (Bool-cases (ltb (E.now s.world).0 deadline)) [
        | inl early ↦ rw early (
            settle-Waits (wait_rounds fuel deadline) tables _ (at_open.0 ∙ h) at_open.1
              (wait_rounds-Waits fuel deadline tables))
        | inr late ↦ rw late (h, inr refl)
      ]

  -- Whatever the clock and the database do: if `wait_for_database` ends, it returns with an open
  -- connection or raises its RuntimeError, and it leaves the tables alone.
  pub wait_for_database-Waits :
      (timeout : ℕ) (s : Service State Source) → Waits s.db.tables (wait_for_database timeout s)
  unfolding wait_for_database
  wait_for_database-Waits timeout s =
      wait_rounds-Waits (timeout / 3 + 1) ((E.now s.world).0 + timeout * 1000000) s.db.tables
        (record s { world = (E.now s.world).1 }) refl

  settle-HasEnded :
      (again : Wait) (r : Result (Unit {0}) × Service State Source)
      → HasEnded (again (record r.1 { world = E.sleep nap r.1.world }))
      → HasEnded (settle again r)
  unfolding settle
  settle-HasEnded again (ok u, s) h = (ok u, s, refl)
  settle-HasEnded again (err e, s) h = h

  wait_rounds-HasEnded :
      (fuel : ℕ) (deadline : Datetime) (s : Service State Source)
      → IsTicking E
      → deadline ≤ (E.now s.world).0 + fuel * nap
      → HasEnded (wait_rounds fuel deadline s)
  unfolding wait_rounds try_connect
  wait_rounds-HasEnded zero deadline s ticking h =
      rw (le→ltb (E.now s.world).0 deadline (omega arith))
        (err runtime_error, record s { world = (E.now s.world).1 }, refl)
  wait_rounds-HasEnded (suc fuel) deadline s ticking h =
      let w = (E.now s.world).1 in
      let w' = (E.fault w).1 in
      elim (Bool-cases (ltb (E.now s.world).0 deadline)) [
        | inl early ↦ rw early (
            settle-HasEnded (wait_rounds fuel deadline) _ (
              wait_rounds-HasEnded fuel deadline _ ticking
                (omega (arith, ticking.reads s.world, ticking.fails w, ticking.sleeps nap w'))))
        | inr late ↦ rw late (err runtime_error, record s { world = w }, refl)
      ]

  -- By a clock that ticks, `wait_for_database` ends.
  pub wait_for_database-HasEnded :
      (timeout : ℕ) (s : Service State Source)
      → IsTicking E
      → HasEnded (wait_for_database timeout s)
  unfolding wait_for_database
  wait_for_database-HasEnded timeout s ticking =
      wait_rounds-HasEnded (timeout / 3 + 1) _ (record s { world = (E.now s.world).1 }) ticking
        (omega (arith, ticking.reads s.world))

  -- By a clock that ticks, whatever the database does: `wait_for_database` ends; it returns with an open
  -- connection or raises its RuntimeError, and it leaves the tables alone.
  pub wait_for_database-Settles :
      (timeout : ℕ) (s : Service State Source)
      → IsTicking E
      → (r : Result (Unit {0})) × (t : Service State Source) × (wait_for_database timeout s
          ≡ some (r, t))
        × (t.db.tables ≡ s.db.tables)
        × (((r ≡ ok tt) × IsOpen t.db.handle) ⊎ (r ≡ err runtime_error))
  wait_for_database-Settles timeout s ticking =
      let (r, t, e) = wait_for_database-HasEnded timeout s ticking in
      let waited = subst (Waits s.db.tables) e (wait_for_database-Waits timeout s) in
      (r, t, e, waited.0, waited.1)
