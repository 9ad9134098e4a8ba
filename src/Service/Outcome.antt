-- ===== src/Service/Outcome.antt =====
-- How a cycle ends, by the number of symbols that failed.
use crypto_analytics_platfor.Base.{
  ℕ, ◌+◌, ◌≤◌, ◌<◌, ◌≡◌, refl, String, List, [], ◌∷◌, Option, none, some, ◌⊎◌, inl, inr, arith, ltb,
  ◌==◌, Bool-cases, length,
}
use crypto_analytics_platfor.Base.Result.{Result, ok, err}
use crypto_analytics_platfor.Db.{Driver}
use crypto_analytics_platfor.Environment.{Environment}
use crypto_analytics_platfor.Metrics.{Trace, succeeded, partial, failed, cycle_done}
use crypto_analytics_platfor.Service.{CandleSources, Config, Service, Action}
use crypto_analytics_platfor.Service.Cycle.{
  should_degrade, note_failure, leave_fallback, note_success, measure_lag, after_lag, after_ingest,
  ingest_pending, try_symbol, try_symbols, conclude,
}

module _ (E : Environment) (K : CandleSources E.State) (c : Config) where
  open E use {State}
  open K use {Source}

  -- What the end of a cycle does to the state `s` that the symbols left: which outcome is counted,
  -- and what happens to the failures counted in a row and to the fallback.
  abbrev pub EndsAs : ℕ → ℕ → Service State Source → Service State Source → Type 0
  EndsAs symbols failures s t =
      ((failures ≡ 0)
        × (t.consecutive_failures ≡ 0)
        × (t.fallback ≡ none)
        × ((rest : Trace) × (t.trace ≡ cycle_done succeeded ∷ rest)))
      ⊎ ((1 ≤ failures)
          × (failures < symbols)
          × (t.consecutive_failures ≡ s.consecutive_failures)
          × (t.fallback ≡ s.fallback)
          × (t.trace ≡ cycle_done partial ∷ s.trace))
      ⊎ ((1 ≤ failures)
          × (symbols ≤ failures)
          × (t.consecutive_failures ≡ s.consecutive_failures + 1)
          × ((t.fallback ≡ s.fallback) ⊎ ((s.fallback ≡ none) × (t.fallback ≡ some K.replay)))
          × ((rest : Trace) × (t.trace ≡ cycle_done failed ∷ rest)))

  left :
      (o : Option Source) (s : Service State Source)
      → s.fallback ≡ o
      → (leave_fallback E K c o s).fallback ≡ none
  unfolding leave_fallback
  left none s h = h
  left (some f) s h = refl

  counted :
      (s : Service State Source)
      → (note_failure E K c s).consecutive_failures ≡ s.consecutive_failures + 1
  unfolding note_failure
  counted s = elim (Bool-cases (should_degrade E K c (s.consecutive_failures + 1) s.fallback)) [
    | inl e ↦ rw e refl
    | inr e ↦ rw e refl
  ]

  kept_or_new :
      (o : Option Source) (s : Service State Source)
      → s.fallback ≡ o
      → ((note_failure E K c s).fallback ≡ s.fallback)
        ⊎ ((s.fallback ≡ none) × ((note_failure E K c s).fallback ≡ some K.replay))
  unfolding note_failure should_degrade
  kept_or_new (some f) s e = inl (ground arith)
  kept_or_new none s e =
      elim (Bool-cases (should_degrade E K c (s.consecutive_failures + 1) s.fallback)) [
        | inl d ↦ inr (e, rw d refl)
        | inr d ↦ inl (rw d refl)
      ]

  module _ (D : Driver) where
    -- The end of a cycle, for every number of failures: without one it is a success, which clears the
    -- count and the fallback; with failures of some symbols it is partial, which changes neither; and
    -- with at least as many failures as symbols it is failed, and counted, and the fallback stays or
    -- a new one is started where there was none.
    pub conclude-EndsAs :
        (symbols failures : ℕ) (s : Service State Source)
        → EndsAs symbols failures s (conclude E K c D symbols failures s)
    unfolding conclude note_success
    conclude-EndsAs symbols failures s = elim (Bool-cases (failures == 0)) [
      | inl e ↦ rw e (inl (ground arith, refl, left s.fallback s refl, (_, refl)))
      | inr e ↦ elim (Bool-cases (ltb failures symbols)) [
        | inl f ↦ rw (e, f) (inr (inl (ground arith, ground arith, refl, refl, refl)))
        | inr f ↦
            rw (e, f)
              (inr (
                inr (
                  ground arith,
                  ground arith,
                  counted s,
                  kept_or_new s.fallback s refl,
                  (_, refl),
                )))
      ]
    ]

    one_lag :
        (written : ℕ) (r : Result (Unit {0}) × Service State Source)
        → (after_lag E K c written r).0.1 ≤ 1
    one_lag written (ok u, s) = omega arith
    one_lag written (err e, s) = omega arith

    one :
        (lag : Action State Source (Unit {0})) (r : Result ℕ × Service State Source)
        → (after_ingest E K c lag r).0.1 ≤ 1
    one lag (ok written, s) = one_lag written (lag s)
    one lag (err e, s) = omega arith

    -- Whatever fails, a pass over the symbols counts at most one failure for each.
    pub failures-le :
        (symbols : List String) (s : Service State Source)
        → (try_symbols E K c D symbols s).0.1 ≤ length symbols
    unfolding try_symbols try_symbol
    failures-le [] s = omega arith
    failures-le (symbol ∷ symbols) s = omega (
      arith,
      one (measure_lag E K c symbol) (ingest_pending E K c D symbol s),
      failures-le symbols (try_symbol E K c D symbol s).1,
    )
