-- ===== src/Models/Parse.antt =====
-- `_decimal`, `_ms_to_utc` and `parse_binance_kline` of ingestion/models.py.
use crypto_analytics_platfor.Base.{String, some, none, ltb, length}
use crypto_analytics_platfor.Base.Result.{
  Result, ok, err, raise_if, ◌>>=◌, ◌>>◌, Reason, validation,
}
use crypto_analytics_platfor.Decimal.{Decimal, finite}
use crypto_analytics_platfor.Datetime.{Datetime, of_ms}
use crypto_analytics_platfor.Json.{Json, array, item, item_list, int_of, decimal_of}
use crypto_analytics_platfor.Models.{Candle, validate_candle}

-- The try of `_decimal` catches what `Decimal(str(value))` raises; then it must be finite.
unfoldable pub decimal_field : String → Json → Result Decimal
decimal_field name value = elim (decimal_of value) [
  | ok (finite d) ↦ ok d
  | ok _ ↦ err (validation (Reason.not_finite name))
  | err _ ↦ err (validation (Reason.not_a_number name))
]

-- What `int` and `fromtimestamp` raise is caught alike.
unfoldable pub ms_to_utc : String → Json → Result Datetime
ms_to_utc name value = elim (int_of value) [
  | ok ms ↦ elim (of_ms ms) [
    | some t ↦ ok t
    | none ↦ err (validation (Reason.not_a_timestamp name))
  ]
  | err _ ↦ err (validation (Reason.not_a_timestamp name))
]

-- The length check, on an array; anything else is refused.
unfoldable pub check_array : Json → Result (Unit {0})
check_array (array xs) =
    raise_if (ltb (length (item_list xs)) 11) (validation Reason.too_few_fields)
check_array _ = err (validation Reason.not_an_array)

-- The positional fields, read in the order of the constructor's keywords.
unfoldable pub candle_of_kline : String → Json → String → Result Candle
unfolding decimal_field ms_to_utc
candle_of_kline symbol kline source = do
  open_time ← ms_to_utc "open_time" (← item kline 0)
  close_time ← ms_to_utc "close_time" (← item kline 6)
  open_price ← decimal_field "open_price" (← item kline 1)
  high_price ← decimal_field "high_price" (← item kline 2)
  low_price ← decimal_field "low_price" (← item kline 3)
  close_price ← decimal_field "close_price" (← item kline 4)
  volume ← decimal_field "volume" (← item kline 5)
  quote_volume ← decimal_field "quote_volume" (← item kline 7)
  trade_count ← int_of (← item kline 8)
  taker_buy_base ← decimal_field "taker_buy_base" (← item kline 9)
  taker_buy_quote ← decimal_field "taker_buy_quote" (← item kline 10)
  ok (record {
    symbol = symbol;
    open_time = open_time;
    close_time = close_time;
    open_price = open_price;
    high_price = high_price;
    low_price = low_price;
    close_price = close_price;
    volume = volume;
    quote_volume = quote_volume;
    trade_count = trade_count;
    taker_buy_base = taker_buy_base;
    taker_buy_quote = taker_buy_quote;
    source = source;
  })

unfoldable pub parse_binance_kline : String → Json → String → Datetime → Result Candle
unfolding check_array candle_of_kline
parse_binance_kline symbol kline source now = do
  check_array kline
  candle ← candle_of_kline symbol kline source
  validate_candle candle now
  ok candle
