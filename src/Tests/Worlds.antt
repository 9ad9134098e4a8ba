-- ===== src/Tests/Worlds.antt =====
-- A network, a database driver and sources that the tests run against, and their data.
use crypto_analytics_platfor.Base.{
  ℕ, zero, suc, ◌+◌, ◌-◌, ◌*◌, ◌≤◌, ◌<◌, ◌≡◌, refl, String, List, [], ◌∷◌, pos, arith, leb, inl,
  inr, Bool-cases, if◌then◌else◌, length, length-drop, take, drop, ap,
}
use mathlib.Core.Path.{fun_ext}
use crypto_analytics_platfor.Base.Result.{Result, ok, err, ◌>>=◌, source, hosts_failed, value_error}
use crypto_analytics_platfor.Datetime.{Datetime, minute, epoch}
use crypto_analytics_platfor.Db.{Driver, Tables}
use crypto_analytics_platfor.Decimal.{whole, finite}
use crypto_analytics_platfor.Environment.{Environment, Reply, transport_failed, Fault, no_fault}
use crypto_analytics_platfor.Models.{Candle, FxRate}
use crypto_analytics_platfor.Service.{CandleSources}

-- A clock that only `sleep` moves, the replies and the faults to come.
pub record World : Type 0 where
  pub clock : Datetime
  pub replies : List Reply
  pub faults : List Fault

abbrev pub next_reply : List Reply → Reply × List Reply
next_reply [] = (transport_failed, [])
next_reply (r ∷ rs) = (r, rs)

abbrev pub upcoming : List Fault → Fault × List Fault
upcoming [] = (no_fault, [])
upcoming (f ∷ fs) = (f, fs)

abbrev pub scripted : Environment
scripted = record {
  State = World;
  now = λ w. (w.clock, w);
  uniform = λ bound w. (0, w);
  uniform-le = λ bound w. omega arith;
  sleep = λ d w. record w { clock = w.clock + d };
  get = λ host path params w. let (r, rs) = next_reply w.replies in (r, record w { replies = rs });
  get_url = λ url w. let (r, rs) = next_reply w.replies in (r, record w { replies = rs });
  monotonic = λ w. (w.clock, w);
  other_iso = λ s. err value_error;
  out_of_range = λ n. value_error;
  fault = λ w. let (f, fs) = upcoming w.faults in (f, record w { faults = fs });
}

-- The same, with a clock that stands.
abbrev pub frozen : Environment
frozen = record scripted { now = λ w. (epoch + 9 * minute, w) }

-- `execute_values` of psycopg2, page by page, with a fuel that the number of rows bounds.
unfoldable pub pages :
    (List Candle → Tables → Result (Tables × ℕ))
    → ℕ
    → ℕ
    → List Candle
    → Tables
    → Result (Tables × ℕ)
pages f n zero rows t = ok (t, 0)
pages f n (suc fuel) rows t =
    if leb (length rows) n
    then f rows t
    else (f (take n rows) t >>= λ done. pages f n fuel (drop n rows) done.0)

pages_fuel :
    (f : List Candle → Tables → Result (Tables × ℕ)) (n a b : ℕ) (rows : List Candle) (t : Tables)
    → 1 ≤ n
    → 1 ≤ length rows
    → length rows ≤ a
    → length rows ≤ b
    → pages f n a rows t ≡ pages f n b rows t
unfolding pages
pages_fuel f n zero b rows t h l p q = absurd (omega arith)
pages_fuel f n (suc a) zero rows t h l p q = absurd (omega arith)
pages_fuel f n (suc a) (suc b) rows t h l p q = elim (Bool-cases (leb (length rows) n)) [
  | inl last ↦ rw last refl
  | inr more ↦ rw more (
      ap (λ (k : Tables × ℕ → Result (Tables × ℕ)). f (take n rows) t >>= k)
        (fun_ext λ done.
          pages_fuel f n a b (drop n rows) done.0 h (ground (arith, length-drop n rows))
            (omega (arith, length-drop n rows)) (omega (arith, length-drop n rows))))
]

pub one_page_of :
    (f : List Candle → Tables → Result (Tables × ℕ)) (n fuel : ℕ) (rows : List Candle) (t : Tables)
    → 1 ≤ fuel
    → length rows ≤ n
    → pages f n fuel rows t ≡ f rows t
unfolding pages
one_page_of f n zero rows t h fits = absurd (omega arith)
one_page_of f n (suc fuel) rows t h fits = ground arith

pub more_pages_of :
    (f : List Candle → Tables → Result (Tables × ℕ)) (n fuel : ℕ) (rows : List Candle) (t : Tables)
    → 1 ≤ n
    → n < length rows
    → length rows ≤ fuel
    → pages f n fuel rows t
      ≡ (f (take n rows) t >>= λ done. pages f n (length (drop n rows)) (drop n rows) done.0)
unfolding pages
more_pages_of f n zero rows t positive more h = absurd (omega arith)
more_pages_of f n (suc fuel) rows t positive more h = elim (Bool-cases (leb (length rows) n)) [
  | inl last ↦ absurd (ground arith)
  | inr e ↦ rw e (
      ap (λ (k : Tables × ℕ → Result (Tables × ℕ)). f (take n rows) t >>= k)
        (fun_ext λ done.
          pages_fuel f n fuel (length (drop n rows)) (drop n rows) done.0 positive
            (omega (arith, length-drop n rows)) (omega (arith, length-drop n rows)) (omega arith)))
]

unfoldable pub exact_driver : Driver
unfolding pages
exact_driver = record {
  cast_candle = λ c. ok c;
  cast_fx = λ r. ok r;
  execute_values = λ f n rows t. pages f n (length rows) rows t;
  cast_candle-key = λ c d e. (cc, cc);
  cast_fx-key = λ r d e. (cc, cc, cc);
  one_page = λ f n rows t h fits. one_page_of f n (length rows) rows t h fits;
  more_pages = λ f n rows t h more. more_pages_of f n (length rows) rows t h more (omega arith);
}

-- A source that always returns its candles, and raises where it has none.
pub record Canned : Type 0 where
  pub label : String
  pub candles : List Candle

abbrev pub canned_fetch : List Candle → Result (List Candle)
canned_fetch [] = err (source hosts_failed)
canned_fetch (c ∷ cs) = ok (c ∷ cs)

-- The minute `n` after the epoch.
abbrev pub at : ℕ → Datetime
at n = epoch + n * minute

abbrev pub bar : ℕ → ℕ → Candle
bar n price = record {
  symbol = "BTCUSDT";
  open_time = at n;
  close_time = at n + 59999000;
  open_price = whole price;
  high_price = whole (price + 5);
  low_price = whole (price - 5);
  close_price = whole (price + 1);
  volume = whole 12;
  quote_volume = whole 1200;
  trade_count = pos 7;
  taker_buy_base = whole 6;
  taker_buy_quote = whole 600;
  source = "binance";
}

abbrev pub euro : ℕ → FxRate
euro n = record {
  base = "USD";
  quote = "EUR";
  rate = finite (record { mantissa = pos 92; scale = 2 });
  as_of = at n;
  source = "frankfurter";
}

abbrev pub canned : CandleSources World
canned = record {
  Source = Canned;
  name = λ s. s.label;
  fetch = λ symbol start end s w. (canned_fetch s.candles, s, w);
  close = λ s w. w;
  replay = record { label = "replay"; candles = bar 100 50 ∷ [] };
}
