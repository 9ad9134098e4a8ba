-- ===== src/Service/Degradation.antt =====
-- The fallback as a state machine over the outcomes of the cycles.
use crypto_analytics_platfor.Base.{
  ℕ, suc, ◌+◌, ◌≤◌, ◌≡◌, refl, Bool, length, true, false, Option, none, some, inl, inr, leb, ltb,
  ◌==◌, Bool-cases,
}
use crypto_analytics_platfor.Base.Texts.{str_eq}
use crypto_analytics_platfor.Db.{Driver}
use crypto_analytics_platfor.Environment.{Environment}
use crypto_analytics_platfor.Base.Result.{Result}
use crypto_analytics_platfor.Service.Frame
use crypto_analytics_platfor.Metrics.{set_active_source}
use crypto_analytics_platfor.Metrics.Active.{shows}
use crypto_analytics_platfor.Service.{CandleSources, Config, Service}
use crypto_analytics_platfor.Service.Cycle.{
  should_degrade, note_failure, leave_fallback, note_success, conclude, try_symbols, cycle,
}

module _ (E : Environment) (K : CandleSources E.State) (c : Config) where
  open E use {State}
  open K use {Source}

  -- `n` cycles in a row, from `s` on, in each of which every symbol failed.
  pub data FailedCycles (D : Driver) (s : Service State Source)
      : ℕ → Service State Source → Type 0 where
    none_yet : FailedCycles D s 0 s
    one_more :
        {n : ℕ} {t : Service State Source}
        → FailedCycles D s n t
        → length c.symbols ≤ (try_symbols E K c D c.symbols t).0.1
        → FailedCycles D s (suc n) (cycle E K c D t).1

  abbrev pub is_active : Option Source → Bool
  is_active none = false
  is_active (some f) = true

  -- `n` failures have been counted, the fallback is active exactly if the budget `b` is reached, and
  -- the cycle that reaches it has left a new replay source there.
  pub record IsCounted (b n : ℕ) (s : Service State Source) : Type 0 where
    pub count : s.consecutive_failures ≡ n
    pub active : is_active s.fallback ≡ leb b n
    pub new : n ≡ b → s.fallback ≡ some K.replay

  -- The count, and whether there is a fallback: the loop over the symbols leaves both alone.
  abbrev Stands : ℕ → Bool → Service State Source → Type 0
  Stands n on s = (s.consecutive_failures ≡ n) × (is_active s.fallback ≡ on)

  -- What the gauge shows is what is active: the fallback, if there is one, and the live source if not.
  pub record IsLoud (s : Service State Source) : Type 0 where
    pub replay_shown :
        shows "replay" s.trace ≡ some (elim s.fallback [ some f ↦ true | none ↦ false ])
    pub live_shown :
        shows "binance" s.trace ≡ some (elim s.fallback [ some f ↦ false | none ↦ true ])

  note_failure-IsLoud : (s : Service State Source) → IsLoud s → IsLoud (note_failure E K c s)
  unfolding note_failure set_active_source shows str_eq
  note_failure-IsLoud s h =
      elim (Bool-cases (should_degrade E K c (s.consecutive_failures + 1) s.fallback)) [
        | inl e ↦ rw e (record { replay_shown = refl; live_shown = refl })
        | inr e ↦ rw e (record { replay_shown = h.replay_shown; live_shown = h.live_shown })
      ]

  leave_fallback-IsLoud :
      (o : Option Source) (s : Service State Source)
      → c.source ≡ "binance"
      → s.fallback ≡ o
      → IsLoud s
      → IsLoud (leave_fallback E K c o s)
  unfolding leave_fallback set_active_source shows str_eq
  leave_fallback-IsLoud none s configured e h = h
  leave_fallback-IsLoud (some f) s configured e h =
      rw configured (record { replay_shown = refl; live_shown = refl })

  note_success-IsLoud :
      (s : Service State Source) → c.source ≡ "binance" → IsLoud s → IsLoud (note_success E K c s)
  unfolding note_success shows
  note_success-IsLoud s configured h =
      let left = leave_fallback-IsLoud s.fallback s configured refl h in
      record { replay_shown = left.replay_shown; live_shown = left.live_shown }

  -- Where the configured source is the live one, the end of a cycle keeps the gauges true: whatever
  -- the number of failures, the source shown as active is the source that is active.
  pub conclude-IsLoud :
      (D : Driver) (symbols failures : ℕ) (s : Service State Source)
      → c.source ≡ "binance"
      → IsLoud s
      → IsLoud (conclude E K c D symbols failures s)
  unfolding conclude shows
  conclude-IsLoud D symbols failures s configured h =
      let good = note_success-IsLoud s configured h in
      let bad = note_failure-IsLoud s h in
      elim (Bool-cases (failures == 0)) [
        | inl e ↦ rw e (record { replay_shown = good.replay_shown; live_shown = good.live_shown })
        | inr e ↦ elim (Bool-cases (ltb failures symbols)) [
          | inl f ↦ rw (e, f) (record { replay_shown = h.replay_shown; live_shown = h.live_shown })
          | inr f ↦
              rw (e, f) (record { replay_shown = bad.replay_shown; live_shown = bad.live_shown })
        ]
      ]
