-- ===== src/Sources/Replay/Grid.antt =====
-- The bars that the generator returns.
use mathlib.Core.Path.{subst}
use crypto_analytics_platfor.Base.{
  ℕ, zero, suc, ◌<◌, ◌≡◌, refl, ap, ◌∙◌, ◌-◌, inl, inr, String, List, [], ◌∷◌, some, pos, arith,
  Bool-cases,
}
use crypto_analytics_platfor.Base.Int.{ℤ, ◌+ℤ◌, ◌-ℤ◌, ◌*ℤ◌, ◌≤ℤ◌, ◌<ℤ◌, ltb_ℤ, pos_part}
use crypto_analytics_platfor.Base.Result.{Result, ok, err, bind_elim, ok-injective}
use crypto_analytics_platfor.Datetime.{Datetime, of_ms}
use crypto_analytics_platfor.Environment.{Environment}
use crypto_analytics_platfor.Models.{Candle, validate_candle}
use crypto_analytics_platfor.Sources.Grid.{minute_ms}
use crypto_analytics_platfor.Sources.Replay.{
  Floats, floor_div, moment, bar_of, candle_for, checked_candle, append_bar, fill, fetch,
}

closer :
    (end cursor : ℤ) (f : ℕ)
    → cursor <ℤ end
    → pos_part (end -ℤ cursor) < suc f
    → pos_part (end -ℤ (cursor +ℤ pos minute_ms)) < f
unfolding ◌-ℤ◌ ◌+ℤ◌
closer end cursor f before h = ground arith

module _ (F : Floats) where
  -- The bar of the minute that opens at `ms`: it bears the symbol and the name of the generator, and it
  -- passed the gate at some reading of the clock.
  pub record IsBar (symbol : String) (ms : ℤ) (c : Candle) : Type 0 where
    pub now : Datetime
    pub opens : of_ms ms ≡ some c.open_time
    pub of_symbol : c.symbol ≡ symbol
    pub stamped : c.source ≡ "replay"
    pub passed : validate_candle c now ≡ ok tt

  -- One bar for each minute from the cursor on, and none missing before the end.
  abbrev pub Covers : String → ℤ → ℤ → List Candle → Type 0
  Covers symbol end cursor [] = end ≤ℤ cursor
  Covers symbol end cursor (c ∷ cs) =
      (cursor <ℤ end) × IsBar symbol cursor c × Covers symbol end (cursor +ℤ pos minute_ms) cs

  moment-eq-ok : (ms : ℤ) {t : Datetime} → moment F ms ≡ ok t → of_ms ms ≡ some t
  unfolding moment
  moment-eq-ok ms h = ground arith

  -- What `candle_for` says of its candle before the check.
  abbrev Opens : String → ℤ → Candle → Type 0
  Opens symbol ms c = (of_ms ms ≡ some c.open_time) × (c.symbol ≡ symbol) × (c.source ≡ "replay")

  -- What the candle of `bar_of` bears.
  abbrev Bears : String → Datetime → Candle → Type 0
  Bears symbol t c = (t ≡ c.open_time) × (c.symbol ≡ symbol) × (c.source ≡ "replay")

  bar_of-Bears :
      (symbol : String) (t close : Datetime) (trades : ℤ) (a1 a2 a3 a4 a5 a6 a7 a8 : F.Float)
      {c : Candle}
      → bar_of F symbol t close trades a1 a2 a3 a4 a5 a6 a7 a8 ≡ ok c
      → Bears symbol t c
  unfolding bar_of
  bar_of-Bears symbol t close trades a1 a2 a3 a4 a5 a6 a7 a8 {c} h =
      bind_elim (F.quantized a1) _ h λ v1 e1 h1. bind_elim (F.quantized a2) _ h1 λ v2 e2 h2.
        bind_elim (F.quantized a3) _ h2 λ v3 e3 h3. bind_elim (F.quantized a4) _ h3 λ v4 e4 h4.
          bind_elim (F.quantized a5) _ h4 λ v5 e5 h5. bind_elim (F.quantized a6) _ h5 λ v6 e6 h6.
            bind_elim (F.quantized a7) _ h6 λ v7 e7 h7.
              bind_elim (F.quantized a8) _ h7
                λ v8 e8 last. subst (Bears symbol t) (ok-injective _ c last) (refl, refl, refl)

  candle_for-Opens :
      (symbol : String) (ms : ℤ) {c : Candle} → candle_for F symbol ms ≡ ok c → Opens symbol ms c
  unfolding candle_for
  candle_for-Opens symbol ms {c} h = bind_elim (moment F ms) _ h λ t e h1.
      bind_elim (moment F (ms +ℤ pos (minute_ms - 1))) _ h1 λ close e1 last.
        let (same, of_symbol, stamped) = bar_of-Bears symbol t close _ _ _ _ _ _ _ _ _ last in
        (moment-eq-ok ms e ∙ ap some same, of_symbol, stamped)

  checked_candle-IsBar :
      (symbol : String) (ms : ℤ) (now : Datetime) {c : Candle}
      → checked_candle F symbol ms now ≡ ok c
      → IsBar symbol ms c
  unfolding checked_candle
  checked_candle-IsBar symbol ms now {c} h = bind_elim (candle_for F symbol ms) _ h λ made e h1.
      bind_elim (validate_candle made now) _ h1 λ u e1 last.
        let (opens, of_symbol, stamped) = candle_for-Opens symbol ms e in
        subst (IsBar symbol ms) (ok-injective made c last) (record {
          now = now;
          opens = opens;
          of_symbol = of_symbol;
          stamped = stamped;
          passed = e1;
        })

  module _ (E : Environment) (symbol : String) (end : ℤ) where
    open E use {State}

    -- If the call returns, its list covers the minutes.
    abbrev pub Returned : ℤ → Result (List Candle) × State → Type 0
    Returned cursor (ok cs, s) = Covers symbol end cursor cs
    Returned cursor (err e, s) = Unit

    append_bar-Returned :
        (cursor : ℤ) (now : Datetime) (r : Result Candle) (rest : Result (List Candle) × State)
        (s : State)
        → checked_candle F symbol cursor now ≡ r
        → cursor <ℤ end
        → Returned (cursor +ℤ pos minute_ms) rest
        → Returned cursor (append_bar F E symbol end r rest s)
    append_bar-Returned cursor now (ok c) (ok cs, s') s e before h =
        (before, checked_candle-IsBar symbol cursor now e, h)
    append_bar-Returned cursor now (ok c) (err x, s') s e before h = tt
    append_bar-Returned cursor now (err x) rest s e before h = tt

    fill-Returned :
        (fuel : ℕ) (cursor : ℤ) (s : State)
        → pos_part (end -ℤ cursor) < fuel
        → Returned cursor (fill F E symbol end fuel cursor s)
    unfolding fill
    fill-Returned zero cursor s h = absurd (omega arith)
    fill-Returned (suc fuel) cursor s h = elim (Bool-cases (ltb_ℤ cursor end)) [
      | inl more ↦ rw more (
          append_bar-Returned cursor (E.now s).0 (checked_candle F symbol cursor (E.now s).0) _ _
            refl (ground arith)
            (fill-Returned fuel (cursor +ℤ pos minute_ms) (E.now s).1
              (closer end cursor fuel (ground arith) h)))
      | inr done ↦ rw done (ground arith)
    ]

    -- Whatever the floats and the clock are: if the generator returns, it gives one bar for each minute
    -- from the minute of the start on, in order, and none is missing before the end. Each bar opens at
    -- its minute, bears the symbol and the stamp of the generator, and passed the gate.
    pub fetch-Returned :
        (start : ℤ) (s : State)
        → Returned (floor_div start minute_ms *ℤ minute_ms) (fetch F E symbol end start s)
    unfolding fetch
    fetch-Returned start s =
        fill-Returned _ (floor_div start minute_ms *ℤ minute_ms) s (omega arith)
