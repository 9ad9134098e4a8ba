-- ===== src/Models.antt =====
-- ingestion/models.py: the candle, the FX rate, and the validation gate in front of the database.
-- `now` is passed in: it is the reading of the clock where the caller gives none.
pub mod Parse
pub mod Trust
pub mod FxTrust
pub mod ParseTrust
use crypto_analytics_platfor.Base.{
  ℕ, ◌-◌, Bool, true, false, not, ◌||◌, String, List, [], ◌∷◌, pos, leb, ltb, ◌==◌, length,
}
use crypto_analytics_platfor.Base.Int.{ℤ, ltb_ℤ}
use crypto_analytics_platfor.Base.Texts.{codes}
use crypto_analytics_platfor.Base.Result
use crypto_analytics_platfor.Base.Result.{
  Result, ok, err, raise_if, ◌>>=◌, ◌>>◌, Reason, validation, invalid_operation,
}
use crypto_analytics_platfor.Decimal.{Decimal, AnyDecimal, finite, infinite, nan, whole}
use crypto_analytics_platfor.Decimal.Order.{lt_decimal, le_decimal, max_decimal, min_decimal}
use crypto_analytics_platfor.Datetime.{Datetime, minute, plus, second, microsecond}

-- One closed OHLCV bar. Its decimals are finite: `_decimal` lets nothing else through.
pub record Candle : Type 0 where
  pub symbol : String
  pub open_time : Datetime
  pub close_time : Datetime
  pub open_price : Decimal
  pub high_price : Decimal
  pub low_price : Decimal
  pub close_price : Decimal
  pub volume : Decimal
  pub quote_volume : Decimal
  pub trade_count : ℤ
  pub taker_buy_base : Decimal
  pub taker_buy_quote : Decimal
  pub source : String

-- The providers do not check that a rate is finite.
pub record FxRate : Type 0 where
  pub base : String
  pub quote : String
  pub rate : AnyDecimal
  pub as_of : Datetime
  pub source : String

-- FUTURE_TOLERANCE
abbrev pub future_tolerance : ℕ
future_tolerance = minute

-- The fields that each of the two loops over names reads.
abbrev pub priced : Candle → List (String × Decimal)
priced c =
    ("open_price", c.open_price)
    ∷ ("high_price", c.high_price)
    ∷ ("low_price", c.low_price)
    ∷ ("close_price", c.close_price)
    ∷ []

abbrev pub counted : Candle → List (String × Decimal)
counted c =
    ("volume", c.volume)
    ∷ ("quote_volume", c.quote_volume)
    ∷ ("taker_buy_base", c.taker_buy_base)
    ∷ ("taker_buy_quote", c.taker_buy_quote)
    ∷ []

unfoldable pub check_positive : List (String × Decimal) → Result (Unit {0})
check_positive [] = ok tt
check_positive ((name, value) ∷ fields) = do
  raise_if (le_decimal value (whole 0)) (validation (Reason.not_positive name))
  check_positive fields

unfoldable pub check_nonnegative : List (String × Decimal) → Result (Unit {0})
check_nonnegative [] = ok tt
check_nonnegative ((name, value) ∷ fields) = do
  raise_if (lt_decimal value (whole 0)) (validation (Reason.negative name))
  check_nonnegative fields

-- The rules between the fields of one bar, from `high < low` to the span.
unfoldable pub check_bar : Candle → Result (Unit {0})
check_bar c = do
  raise_if (lt_decimal c.high_price c.low_price) (validation Reason.high_below_low)
  raise_if (lt_decimal c.high_price (max_decimal c.open_price c.close_price))
      (validation Reason.high_below_open_close)
  raise_if (lt_decimal (min_decimal c.open_price c.close_price) c.low_price)
      (validation Reason.low_above_open_close)
  raise_if (lt_decimal c.volume c.taker_buy_base) (validation Reason.taker_above_volume)
  raise_if (not (second c.open_time == 0) || not (microsecond c.open_time == 0))
      (validation Reason.not_minute_aligned)
  raise_if (leb c.close_time c.open_time) (validation Reason.close_not_after_open)
  raise_if (ltb minute (c.close_time - c.open_time)) (validation Reason.spans_too_long)

unfoldable pub validate_candle : Candle → Datetime → Result (Unit {0})
unfolding check_positive check_nonnegative check_bar
validate_candle c now = do
  raise_if (length (codes c.symbol) == 0 || ltb 20 (length (codes c.symbol)))
      (validation Reason.bad_symbol)
  check_positive (priced c)
  check_nonnegative (counted c)
  raise_if (ltb_ℤ c.trade_count (pos 0)) (validation Reason.negative_trade_count)
  check_bar c
  latest ← plus now future_tolerance
  raise_if (ltb latest c.open_time) (validation Reason.in_the_future)

-- `rate.rate <= 0` and `rate.rate > bound`; a comparison with NaN raises InvalidOperation.
at_most_zero : AnyDecimal → Result Bool
at_most_zero (finite d) = ok (le_decimal d (whole 0))
at_most_zero (infinite is_negative) = ok is_negative
at_most_zero nan = err invalid_operation

above : Decimal → AnyDecimal → Result Bool
above bound (finite d) = ok (lt_decimal bound d)
above bound (infinite is_negative) = ok (not is_negative)
above bound nan = err invalid_operation

unfoldable pub validate_fx : FxRate → Datetime → Result (Unit {0})
unfolding at_most_zero above
validate_fx r now = do
  raise_if (← at_most_zero r.rate) (validation Reason.fx_not_positive)
  raise_if (← above (whole 1000000) r.rate) (validation Reason.fx_too_large)
  latest ← plus now future_tolerance
  raise_if (ltb latest r.as_of) (validation Reason.fx_in_the_future)
  raise_if (length (codes r.base) == 0 || length (codes r.quote) == 0)
      (validation Reason.fx_pair_missing)
