-- ===== src/Service/Recovery.antt =====
-- A cycle on the fallback, and what ends the fallback.
use crypto_analytics_platfor.Base.{
  ℕ, ◌≡◌, refl, ◌∙◌, String, List, ◌∷◌, Option, none, some, inl, inr, arith, ◌==◌, if◌then◌else◌,
  Bool-cases, length,
}
use crypto_analytics_platfor.Base.Result.{Result}
use crypto_analytics_platfor.Db.{Driver}
use crypto_analytics_platfor.Environment.{Environment}
use crypto_analytics_platfor.Metrics.{last_success}
use crypto_analytics_platfor.Models.{Candle}
use crypto_analytics_platfor.Service.{CandleSources, Config, Service}
use crypto_analytics_platfor.Service.Frame
use crypto_analytics_platfor.Service.Window.{store_source}
use crypto_analytics_platfor.Service.Cycle.{
  leave_fallback, note_success, try_symbols, conclude, cycle,
}

module _ (E : Environment) (K : CandleSources E.State) (c : Config) where
  open E use {State}
  open K use {Source}

  -- The fallback is active, and the live source is `live`.
  pub record OnFallback (live : Source) (s : Service State Source) : Type 0 where
    pub active : (f : Source) × (s.fallback ≡ some f)
    pub untouched : s.source ≡ live

  module _ (live : Source) (D : Driver) where
    abbrev P : Service State Source → Type 0
    P = OnFallback live

    -- A change of the other fields keeps it.
    other_fields :
        (s s' : Service State Source) → s'.fallback ≡ s.fallback → s'.source ≡ s.source → P s → P s'
    other_fields s s' f e h = record {
      active = (h.active.0, f ∙ h.active.1);
      untouched = e ∙ h.untouched;
    }

    stored :
        (o : Option Source) (s : Service State Source) (r : Result (List Candle) × Source × _)
        → s.fallback ≡ o
        → OnFallback live s
        → OnFallback live (store_source E K o s r).1
    stored none s r e h = absurd (ground (arith, h.active.1))
    stored (some f) s (r, source, w) e h = record {
      active = (source, refl);
      untouched = h.untouched;
    }

    symbols-Keep :
        (symbols : List String) (s : Service State Source)
        → P s
        → P (try_symbols E K c D symbols s).1
    symbols-Keep = Frame.symbols-Keep E K c D P (λ s s' f e n h. other_fields s s' f e h) stored

  -- Where a cycle left the service.
  pub record IsRecovered (live : Source) (s : Service State Source) : Type 0 where
    pub off : s.fallback ≡ none
    pub clear : s.consecutive_failures ≡ 0
    pub untouched : s.source ≡ live

  success-IsRecovered :
      (live : Source) (D : Driver) (s : Service State Source)
      → OnFallback live s
      → IsRecovered live (conclude E K c D (length c.symbols) 0 s)
  unfolding conclude note_success leave_fallback
  success-IsRecovered live D s h =
      rw (h.active.1) (record { off = refl; clear = refl; untouched = h.untouched })

  counted-IsRecovered :
      (live : Source) (total : ℕ) (s : Service State Source)
      → IsRecovered live s
      → IsRecovered live (if total == 0 then s else record s { trace = last_success ∷ s.trace })
  counted-IsRecovered live total s h = elim (Bool-cases (total == 0)) [
    | inl e ↦ rw e h
    | inr e ↦ rw e (record { off = h.off; clear = h.clear; untouched = h.untouched })
  ]

  -- A cycle that starts on the fallback, and in which no symbol fails, ends the fallback and clears the
  -- count, and the live source is left as it was: it is the fallback's own success that ends it.
  pub cycle-IsRecovered :
      (D : Driver) (s : Service State Source) {f : Source}
      → s.fallback ≡ some f
      → (try_symbols E K c D c.symbols s).0.1 ≡ 0
      → IsRecovered s.source (cycle E K c D s).1
  unfolding cycle
  cycle-IsRecovered D s {f} on fine =
      let r = try_symbols E K c D c.symbols s in
      let kept =
        symbols-Keep s.source D c.symbols s (record { active = (f, on); untouched = refl }) in
      let done = success-IsRecovered s.source D r.1 kept in
      counted-IsRecovered s.source r.0.0 (conclude E K c D (length c.symbols) r.0.1 r.1)
        (rw fine done)
