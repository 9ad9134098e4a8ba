-- ===== src/Sources/Replay.antt =====
-- ingestion/sources/replay.py: the offline generator, over the floating-point numbers and the hash of
-- the platform.
pub mod Grid
use Prim.Native.String.{◌++◌ as ◌<>◌}
use crypto_analytics_platfor.Base.{
  ℕ, zero, suc, ◌+◌, ◌-◌, ◌*◌, ◌/◌, String, Bool, List, [], ◌∷◌, Option, none, some, pos, negsuc,
  if◌then◌else◌,
}
use crypto_analytics_platfor.Base.Int.{ℤ, ◌+ℤ◌, ◌-ℤ◌, ◌*ℤ◌, ltb_ℤ, pos_part}
use crypto_analytics_platfor.Base.Result.{Result, ok, err, ◌>>=◌, ◌>>◌, Exception}
use crypto_analytics_platfor.Base.Texts.{str_eq}
use crypto_analytics_platfor.Datetime.{Datetime, of_ms}
use crypto_analytics_platfor.Decimal.{Decimal}
use crypto_analytics_platfor.Environment.{Environment}
use crypto_analytics_platfor.Models.{Candle, validate_candle}
use crypto_analytics_platfor.Sources.Grid.{minute_ms}

-- The platform's floats, with the operations that the generator calls. `noise` is the first eight bytes
-- of the SHA-256 of a text, `quantized` is `Decimal(str(value)).quantize` to eight places, which may
-- raise, and `literal n k` is the float of n / 10 ^ k.
pub record Floats : Type 1 where
  pub Float : Type 0
  pub literal : ℕ → ℕ → Float
  pub of_int : ℤ → Float
  pub add : Float → Float → Float
  pub sub : Float → Float → Float
  pub mul : Float → Float → Float
  pub div : Float → Float → Float
  pub absolute : Float → Float
  pub sin : Float → Float
  pub exp : Float → Float
  pub pi : Float
  pub greater : Float → Float → Bool
  pub truncated : Float → ℤ
  pub noise : String → ℕ
  pub number : ℤ → String
  pub quantized : Float → Result Decimal
  -- What `datetime.fromtimestamp` raises for milliseconds outside the calendar.
  pub out_of_range : ℤ → Exception

-- `n // MINUTE_MS`, which rounds down.
unfoldable pub floor_div : ℤ → ℕ → ℤ
floor_div (pos n) k = pos (n / k)
floor_div (negsuc n) k = negsuc (n / k)

module _ (F : Floats) where
  open F use {
    Float, literal, of_int, add, sub, mul, div, absolute, sin, exp, pi, greater, noise, number,
    quantized,
  }

  -- `max(a, b)` and `min(a, b)` keep the first of two that do not compare.
  abbrev pub larger : Float → Float → Float
  larger a b = if greater b a then b else a

  abbrev pub smaller : Float → Float → Float
  smaller a b = if greater a b then b else a

  -- `_unit_noise`, from the parts joined by colons: (value / 2 ** 63) - 1.
  unfoldable pub unit_noise : String → Float
  unit_noise key =
      sub (div (of_int (pos (noise key))) (literal 9223372036854775808 0)) (literal 1 0)

  abbrev pub wave : ℕ → ℤ → ℕ → Float
  wave height index period =
      mul (literal height 3)
        (sin (div (mul (mul (literal 2 0) pi) (of_int index)) (literal period 0)))

  -- BASE_PRICES
  abbrev pub base_price : String → Float
  base_price symbol =
      if str_eq symbol "ETHUSDT"
      then literal 1865 0
      else if str_eq symbol "BTCUSDT"
      then literal 61500 0
      else literal 100 0

  unfoldable pub price_at : String → ℤ → Float
  unfolding unit_noise
  price_at symbol index = mul (base_price symbol) (
      exp (
        add (add (add (wave 20 index 1440) (wave 8 index 97)) (wave 3 index 13))
          (mul (literal 15 4) (unit_noise (symbol <> (":" <> number index))))))

  -- The text of a kind of noise: the kind, the symbol and the index of the minute.
  abbrev pub noise_of : String → String → ℤ → Float
  noise_of kind symbol index = unit_noise (kind <> (":" <> (symbol <> (":" <> number index))))

  unfoldable pub moment : ℤ → Result Datetime
  unfolding of_ms
  moment ms = elim (of_ms ms) [ some t ↦ ok t | none ↦ err (F.out_of_range ms) ]

  -- `Candle(...)`, with each float quantized.
  unfoldable pub bar_of :
      String
      → Datetime
      → Datetime
      → ℤ
      → Float
      → Float
      → Float
      → Float
      → Float
      → Float
      → Float
      → Float
      → Result Candle
  bar_of symbol open_time close_time trades o h l c v q t u = do
    open_value ← quantized o
    high_value ← quantized h
    low_value ← quantized l
    close_value ← quantized c
    volume_value ← quantized v
    quote_value ← quantized q
    taker_value ← quantized t
    taker_quote ← quantized u
    ok (record {
      symbol = symbol;
      open_time = open_time;
      close_time = close_time;
      open_price = open_value;
      high_price = high_value;
      low_price = low_value;
      close_price = close_value;
      volume = volume_value;
      quote_volume = quote_value;
      trade_count = trades;
      taker_buy_base = taker_value;
      taker_buy_quote = taker_quote;
      source = "replay";
    })

  unfoldable pub candle_for : String → ℤ → Result Candle
  unfolding price_at unit_noise moment floor_div bar_of ◌+ℤ◌
  candle_for symbol open_ms = do
    let index = floor_div open_ms minute_ms
    let open_price = price_at symbol index
    let close_price = price_at symbol (index +ℤ pos 1)
    let spread = absolute (sub close_price open_price)
    let wick = mul (mul open_price (literal 6 4)) (absolute (noise_of "wick" symbol index))
    let high_price = add (add (larger open_price close_price) (mul spread (literal 35 2))) wick
    let low =
        larger (sub (sub (smaller open_price close_price) (mul spread (literal 35 2))) wick)
          (literal 1 2)
    let volume = add (literal 40 0) (mul (literal 35 0) (absolute (noise_of "vol" symbol index)))
    let share = add (literal 5 1) (mul (literal 3 1) (noise_of "taker" symbol index))
    let taker_base = mul volume (smaller (larger share (literal 2 1)) (literal 8 1))
    let mid = div (add high_price low) (literal 2 0)
    let trades =
        pos 200 +ℤ F.truncated (mul (literal 300 0) (absolute (noise_of "trades" symbol index)))
    open_time ← moment open_ms
    close_time ← moment (open_ms +ℤ pos (minute_ms - 1))
    bar_of symbol open_time close_time trades open_price high_price low close_price volume
        (mul volume mid) taker_base (mul taker_base mid)

  -- The self-check at the end of `candle_for`, at a reading of the clock.
  unfoldable pub checked_candle : String → ℤ → Datetime → Result Candle
  unfolding candle_for validate_candle
  checked_candle symbol open_ms now =
      candle_for symbol open_ms >>= λ c. validate_candle c now >> ok c

  module _ (E : Environment) (symbol : String) (end : ℤ) where
    open E use {State}

    -- What one pass of the loop gives to the list.
    abbrev pub append_bar :
        Result Candle → Result (List Candle) × State → State → Result (List Candle) × State
    append_bar (ok c) (ok cs, s') s = (ok (c ∷ cs), s')
    append_bar (ok c) (err e, s') s = (err e, s')
    append_bar (err e) rest s = (err e, s)

    -- `while cursor < end_ms`, on fuel.
    unfoldable pub fill : ℕ → ℤ → State → Result (List Candle) × State
    unfolding checked_candle ◌+ℤ◌
    fill zero cursor s = (ok [], s)
    fill (suc fuel) cursor s =
        let (now, w) = E.now s in
        let rest = fill fuel (cursor +ℤ pos minute_ms) w in
        if ltb_ℤ cursor end
        then append_bar (checked_candle symbol cursor now) rest w
        else (ok [], s)

    -- `fetch`: the start is moved down to the minute grid. Each pass covers a minute.
    unfoldable pub fetch : ℤ → State → Result (List Candle) × State
    unfolding fill floor_div ◌*ℤ◌ ◌-ℤ◌
    fetch start s =
        let cursor = floor_div start minute_ms *ℤ minute_ms in
        fill (pos_part (end -ℤ cursor) + 1) cursor s
