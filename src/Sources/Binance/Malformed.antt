-- ===== src/Sources/Binance/Malformed.antt =====
-- Malformed klines: which ones `fetch` drops, and which ones end it.
use crypto_analytics_platfor.Base.{
  ℕ, suc, ◌+◌, ◌<◌, ◌≡◌, refl, ap, Bool, true, false, String, List, [], ◌∷◌, ◌++◌, ◌⊎◌, inl, inr,
  arith, if◌then◌else◌, All, Bool-cases, length, length-append,
}
use crypto_analytics_platfor.Base.Int.{ℤ, leb_ℤ}
use crypto_analytics_platfor.Base.Result.{Result, ok, err, Exception, validation, Reason}
use crypto_analytics_platfor.Datetime.{Datetime, past_max}
use crypto_analytics_platfor.Environment.{Environment}
use crypto_analytics_platfor.Json.{Json}
use crypto_analytics_platfor.Metrics.{Trace, rows_rejected}
use crypto_analytics_platfor.Models.{Candle, future_tolerance}
use crypto_analytics_platfor.Models.Parse.{parse_binance_kline}
use crypto_analytics_platfor.Sources.Binance.{Session, ◌>>=◌, pure, lift}
use crypto_analytics_platfor.Sources.Binance.Rules.{
  Ensures, bind-Ensures, any-Ensures, Returns, bind-Returns,
}
use crypto_analytics_platfor.Sources.Binance.Fetch.{
  open_ms, gate_clock, is_formed, keep_or_drop, parse_or_drop, parse_page,
}

-- The call raises.
abbrev pub Raises : {S A : Type 0} → Result A × Session S → Type 0
Raises (r, s) = (e : Exception) × (r ≡ err e)

module _ (E : Environment) (symbol : String) (end : ℤ) where
  open E use {State}

  -- No run of a page with such a kline returns, so none is ensured anything.
  parse_page-ends :
      (before after : List Json) (kline : Json) (e : Exception) (s : Session State)
      → open_ms kline ≡ err e
      → Ensures (λ cs s'. ⊥) (parse_page E symbol end (before ++ kline ∷ after) s)
  unfolding parse_page
  parse_page-ends [] after kline e s bad = unfold ◌>>=◌ in rw bad tt
  parse_page-ends (k ∷ before) after kline e s bad =
      bind-Ensures (λ ms s'. Unit {0}) (λ cs s'. ⊥) (lift (open_ms k)) _ s
        (any-Ensures (lift (open_ms k) s))
        λ ms s1 _.
          bind-Ensures (λ head s'. Unit {0}) (λ cs s'. ⊥)
            (if leb_ℤ end ms then pure [] else parse_or_drop E symbol k) _ s1
            (any-Ensures ((if leb_ℤ end ms then pure [] else parse_or_drop E symbol k) s1))
            λ head s2 _.
              bind-Ensures (λ tail s'. ⊥) (λ cs s'. ⊥)
                (parse_page E symbol end (before ++ kline ∷ after)) _ s2
                (parse_page-ends before after kline e s2 bad) λ tail s3 never. never

  Ensures-Raises : {A : Type 0} (r : Result A × Session State) → Ensures (λ a s'. ⊥) r → Raises r
  Ensures-Raises (ok a, s) h = absurd h
  Ensures-Raises (err e, s) h = (e, refl)

  -- A kline whose opening `int(kline[0])` cannot read ends the whole page: wherever it stands, the
  -- page raises, and no bar of it is kept.
  pub parse_page-Raises :
      (before after : List Json) (kline : Json) (e : Exception) (s : Session State)
      → open_ms kline ≡ err e
      → Raises (parse_page E symbol end (before ++ kline ∷ after) s)
  parse_page-Raises before after kline e s bad =
      Ensures-Raises (parse_page E symbol end (before ++ kline ∷ after) s)
        (parse_page-ends before after kline e s bad)

-- A kline that can only fail by a ValidationError, at a moment before the end of the calendar.
pub record IsReadable (symbol : String) (kline : Json) : Type 0 where
  pub opens : (ms : ℤ) × (open_ms kline ≡ ok ms)
  pub parses :
      (now : Datetime)
      → now + future_tolerance < past_max
      → ((c : Candle) × (parse_binance_kline symbol kline "binance" now ≡ ok c))
        ⊎ ((why : Reason) × (parse_binance_kline symbol kline "binance" now ≡ err (validation why)))

-- The counter of rejected bars.
unfoldable pub rejections : Trace → ℕ
rejections [] = 0
rejections (rows_rejected _ _ ∷ trace) = suc (rejections trace)
rejections (_ ∷ trace) = rejections trace

-- The klines that open at the end of the window or later.
unfoldable pub late : ℤ → List Json → ℕ
late end [] = 0
late end (kline ∷ klines) = elim (open_ms kline) [
  | ok ms ↦ (if leb_ℤ end ms then suc (late end klines) else late end klines)
  | err e ↦ late end klines
]

keep_or_drop-Returns :
    {S : Type 0} (r : Result Candle) (s : Session S)
    → ((c : Candle) × (r ≡ ok c)) ⊎ ((why : Reason) × (r ≡ err (validation why)))
    → Returns
        (λ cs s'. length cs + 0 + rejections s'.trace ≡ rejections s.trace + 1)
        (keep_or_drop r s)
unfolding rejections ◌>>=◌
keep_or_drop-Returns r s (inl (c, e)) = rw e (omega arith)
keep_or_drop-Returns r s (inr (why, e)) = rw e (omega arith)

-- A clock that never reads the last minute of the calendar.
abbrev pub IsBeforeEnd : Environment → Type 0
IsBeforeEnd E = (w : E.State) → (E.now w).0 + future_tolerance < past_max

module _ (E : Environment) (symbol : String) (end : ℤ) (clock : IsBeforeEnd E) where
  open E use {State}

  same_trace : (reached : Bool) (s : Session State) → (gate_clock E reached s).1.trace ≡ s.trace
  same_trace true s = refl
  same_trace false s = refl

  parse_or_drop-Returns :
      (kline : Json) (s : Session State)
      → IsReadable symbol kline
      → Returns
          (λ cs s'. length cs + 0 + rejections s'.trace ≡ rejections s.trace + 1)
          (parse_or_drop E symbol kline s)
  unfolding parse_or_drop
  parse_or_drop-Returns kline s h =
      bind-Returns (λ now s'. (now + future_tolerance < past_max) × (s'.trace ≡ s.trace))
        (λ cs s'. length cs + 0 + rejections s'.trace ≡ rejections s.trace + 1)
        (gate_clock E (is_formed symbol kline)) _ s
        (clock s.world, same_trace (is_formed symbol kline) s)
        λ now s' (early, same). rw (← same) (
          keep_or_drop-Returns (parse_binance_kline symbol kline "binance" now) s'
            (h.parses now early))

  -- How many bars the head of a page leaves to account for.
  abbrev pub Counts : ℕ → ℕ → Session State → List Candle → Session State → Type 0
  Counts skipped total s cs s' =
      length cs + skipped + rejections s'.trace ≡ rejections s.trace + total

  head-Returns :
      (kline : Json) (ms : ℤ) (s : Session State)
      → IsReadable symbol kline
      → Returns
          (Counts (if leb_ℤ end ms then 1 else 0) 1 s)
          ((if leb_ℤ end ms then pure [] else parse_or_drop E symbol kline) s)
  head-Returns kline ms s h = elim (Bool-cases (leb_ℤ end ms)) [
    | inl skip ↦ rw skip (omega arith)
    | inr early ↦ rw early (parse_or_drop-Returns kline s h)
  ]

  late-step :
      (kline : Json) (klines : List Json) (ms : ℤ)
      → open_ms kline ≡ ok ms
      → late end (kline ∷ klines) ≡ (if leb_ℤ end ms then 1 else 0) + late end klines
  unfolding late
  late-step kline klines ms e = ground arith

  -- By a clock before the end of the calendar, a page of klines that can only fail validation is
  -- read to its end: each of its klines is kept, opens at the end of the window or later, or is
  -- counted as rejected.
  pub parse_page-Returns :
      (klines : List Json) (s : Session State)
      → All (IsReadable symbol) klines
      → Returns (Counts (late end klines) (length klines) s) (parse_page E symbol end klines s)
  unfolding parse_page
  parse_page-Returns [] s h = unfold late in omega arith
  parse_page-Returns (kline ∷ klines) s h =
      bind-Returns (λ ms s'. (open_ms kline ≡ ok ms) × (s' ≡ s))
        (Counts (late end (kline ∷ klines)) (length (kline ∷ klines)) s) (lift (open_ms kline)) _ s
        (rw (h.0.opens.1) (refl, refl))
        λ ms s1 (opens, same).
          bind-Returns (Counts (if leb_ℤ end ms then 1 else 0) 1 s1)
            (Counts (late end (kline ∷ klines)) (length (kline ∷ klines)) s) _ _ s1
            (head-Returns kline ms s1 h.0)
            λ head s2 counted.
              bind-Returns (Counts (late end klines) (length klines) s2)
                (Counts (late end (kline ∷ klines)) (length (kline ∷ klines)) s)
                (parse_page E symbol end klines) _ s2 (parse_page-Returns klines s2 h.1)
                λ tail s3 rest. omega (
                  arith,
                  late-step kline klines ms opens,
                  length-append head tail,
                  ap (λ (x : Session State). rejections x.trace) same,
                )
