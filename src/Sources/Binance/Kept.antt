-- ===== src/Sources/Binance/Kept.antt =====
-- What `fetch` returns: which bars, and in which order.
use crypto_analytics_platfor.Base.{
  ℕ, zero, suc, ◌≤◌, ◌≡◌, refl, String, List, [], ◌∷◌, inl, inr, arith, leb, All, All-append,
  Bool-cases, if◌then◌else◌,
}
use crypto_analytics_platfor.Base.Int.{ℤ, ◌<ℤ◌, leb_ℤ, ltb_ℤ}
use crypto_analytics_platfor.Base.Result.{Result, ok, err, validation}
use crypto_analytics_platfor.Datetime.{Datetime}
use crypto_analytics_platfor.Environment.{Environment}
use crypto_analytics_platfor.Json.{Json}
use crypto_analytics_platfor.Models.{Candle}
use crypto_analytics_platfor.Models.Parse.{parse_binance_kline}
use crypto_analytics_platfor.Sources.Binance.{Settings, Session, Action, ◌>>=◌, pure, lift}
use crypto_analytics_platfor.Sources.Binance.Rules.{
  Ensures, bind-Ensures, lift-Ensures, any-Ensures,
}
use crypto_analytics_platfor.Sources.Binance.Page.{fetch_page}
use crypto_analytics_platfor.Sources.Binance.Fetch.{
  Turn, stop, go, open_ms, advance, gate_clock, is_formed, keep_or_drop, parse_or_drop, parse_page,
  page_params, resume, read_page, round, fetch_loop, fetch, insert_sorted, sort_candles,
}

-- The bar comes from a kline that opens before the end, and has passed the gate at some moment.
pub record IsKept (symbol : String) (end : ℤ) (c : Candle) : Type 0 where
  pub kline : Json
  pub now : Datetime
  pub ms : ℤ
  pub opens : open_ms kline ≡ ok ms
  pub before : ms <ℤ end
  pub parsed : parse_binance_kline symbol kline "binance" now ≡ ok c

-- Ascending openings; equal ones are allowed.
abbrev pub IsSorted : List Candle → Type 0
IsSorted [] = Unit
IsSorted (c ∷ []) = Unit
IsSorted (c ∷ d ∷ ds) = (c.open_time ≤ d.open_time) × IsSorted (d ∷ ds)

module _ {ℓ} (P : Candle → Type ℓ) where
  insert_sorted-All : (c : Candle) (ds : List Candle) → P c → All P ds → All P (insert_sorted c ds)
  unfolding insert_sorted
  insert_sorted-All c [] p h = (p, tt)
  insert_sorted-All c (d ∷ ds) p h = elim (Bool-cases (leb c.open_time d.open_time)) [
    | inl first ↦ rw (first, insert_sorted) (p, h)
    | inr later ↦ rw (later, insert_sorted) (h.0, insert_sorted-All c ds p h.1)
  ]

  sort_candles-All : (cs : List Candle) → All P cs → All P (sort_candles cs)
  unfolding sort_candles
  sort_candles-All [] h = tt
  sort_candles-All (c ∷ cs) h = insert_sorted-All c (sort_candles cs) h.0 (sort_candles-All cs h.1)

insert_sorted-IsSorted :
    (c : Candle) (ds : List Candle) → IsSorted ds → IsSorted (insert_sorted c ds)
unfolding insert_sorted
insert_sorted-IsSorted c [] h = tt
insert_sorted-IsSorted c (d ∷ []) h = ground arith
insert_sorted-IsSorted c (d ∷ e ∷ es) h = ground (arith, insert_sorted-IsSorted c (e ∷ es) h.1)

sort_candles-IsSorted : (cs : List Candle) → IsSorted (sort_candles cs)
unfolding sort_candles
sort_candles-IsSorted [] = tt
sort_candles-IsSorted (c ∷ cs) =
    insert_sorted-IsSorted c (sort_candles cs) (sort_candles-IsSorted cs)

keep_or_drop-Ensures {ℓ} :
    {S : Type 0} (P : Candle → Type ℓ) (r : Result Candle) (s : Session S)
    → ((c : Candle) → r ≡ ok c → P c)
    → Ensures (λ cs s'. All P cs) (keep_or_drop r s)
unfolding ◌>>=◌
keep_or_drop-Ensures P (ok c) s h = (h c refl, tt)
keep_or_drop-Ensures P (err (validation _)) s h = tt
keep_or_drop-Ensures P (err e) s h = tt

module _ (E : Environment) (symbol : String) (end : ℤ) where
  open E use {State}

  abbrev AllKept : List Candle → Session State → Type 0
  AllKept cs s = All (IsKept symbol end) cs

  parse_or_drop-AllKept :
      (kline : Json) (ms : ℤ) (s : Session State)
      → open_ms kline ≡ ok ms
      → ms <ℤ end
      → Ensures AllKept (parse_or_drop E symbol kline s)
  unfolding parse_or_drop
  parse_or_drop-AllKept kline ms s opens before =
      bind-Ensures (λ now s'. Unit {0}) AllKept (gate_clock E (is_formed symbol kline)) _ s tt
        λ now s' _.
          keep_or_drop-Ensures (IsKept symbol end) (parse_binance_kline symbol kline "binance" now)
            s'
            λ c e. record {
              kline = kline;
              now = now;
              ms = ms;
              opens = opens;
              before = before;
              parsed = e;
            }

  head-AllKept :
      (kline : Json) (ms : ℤ) (s : Session State)
      → open_ms kline ≡ ok ms
      → Ensures AllKept ((if leb_ℤ end ms then pure [] else parse_or_drop E symbol kline) s)
  head-AllKept kline ms s opens = elim (Bool-cases (leb_ℤ end ms)) [
    | inl late ↦ rw late tt
    | inr early ↦ rw early (parse_or_drop-AllKept kline ms s opens (ground arith))
  ]

  parse_page-AllKept :
      (klines : List Json) (s : Session State) → Ensures AllKept (parse_page E symbol end klines s)
  unfolding parse_page
  parse_page-AllKept [] s = tt
  parse_page-AllKept (kline ∷ klines) s =
      bind-Ensures (λ ms s'. open_ms kline ≡ ok ms) AllKept (lift (open_ms kline)) _ s
        (lift-Ensures (open_ms kline) s)
        λ ms s1 opens.
          bind-Ensures AllKept AllKept _ _ s1 (head-AllKept kline ms s1 opens) λ head s2 h.
            bind-Ensures AllKept AllKept _ _ s2 (parse_page-AllKept klines s2)
              λ tail s3 t. All-append (IsKept symbol end) head tail h t

  module _ (c : Settings) where
    -- What runs the rest keeps only such bars.
    abbrev Keeps : (ℤ → Action State (List Candle)) → Type 0
    Keeps rest = (cursor : ℤ) (s : Session State) → Ensures AllKept (rest cursor s)

    resume-AllKept :
        (rest : ℤ → Action State (List Candle)) (candles : List Candle) (turn : Turn)
        (s : Session State)
        → Keeps rest
        → AllKept candles s
        → Ensures AllKept (resume E c symbol end rest candles turn s)
    resume-AllKept rest candles stop s k h = h
    resume-AllKept rest candles (go cursor) s k h =
        bind-Ensures AllKept AllKept (rest cursor) _ s (k cursor s)
          λ more s' m. All-append (IsKept symbol end) candles more h m

    read_page-AllKept :
        (rest : ℤ → Action State (List Candle)) (cursor : ℤ) (page : List Json) (s : Session State)
        → Keeps rest
        → Ensures AllKept (read_page E c symbol end rest cursor page s)
    unfolding read_page
    read_page-AllKept rest cursor [] s k = tt
    read_page-AllKept rest cursor (kline ∷ klines) s k =
        bind-Ensures AllKept AllKept _ _ s (parse_page-AllKept (kline ∷ klines) s) λ candles s1 h.
          bind-Ensures (λ turn s'. Unit {0}) AllKept (lift (advance cursor kline klines)) _ s1
            (any-Ensures (lift (advance cursor kline klines) s1))
            λ turn s2 _. resume-AllKept rest candles turn s2 k h

    round-Keeps :
        (rest : ℤ → Action State (List Candle)) → Keeps rest → Keeps (round E c symbol end rest)
    unfolding round
    round-Keeps rest k cursor s = elim (Bool-cases (ltb_ℤ cursor end)) [
      | inl more ↦
          rw (more, round)
            (bind-Ensures (λ page s'. Unit {0}) AllKept
              (fetch_page E c (page_params symbol cursor end)) _ s
              (any-Ensures (fetch_page E c (page_params symbol cursor end) s))
              λ page s1 _. read_page-AllKept rest cursor page s1 k)
      | inr done ↦ rw (done, round) tt
    ]

    fetch_loop-Keeps : (fuel : ℕ) → Keeps (fetch_loop E c symbol end fuel)
    unfolding fetch_loop
    fetch_loop-Keeps zero cursor s = tt
    fetch_loop-Keeps (suc fuel) cursor s =
        round-Keeps (fetch_loop E c symbol end fuel) (fetch_loop-Keeps fuel) cursor s

    -- Whatever the exchange answers: if `fetch` returns, its bars are in ascending order of their
    -- opening, and each one was parsed, and so passed the gate, from a kline whose opening lies
    -- before the end of the window.
    pub fetch-Kept :
        (start : ℤ) (s : Session State)
        → Ensures (λ cs s'. IsSorted cs × All (IsKept symbol end) cs) (fetch E c symbol start end s)
    unfolding fetch
    fetch-Kept start s =
        bind-Ensures AllKept (λ cs s'. IsSorted cs × All (IsKept symbol end) cs)
          (fetch_loop E c symbol end _ start) _ s (fetch_loop-Keeps _ start s)
          λ candles s' h.
            (sort_candles-IsSorted candles, sort_candles-All (IsKept symbol end) candles h)
