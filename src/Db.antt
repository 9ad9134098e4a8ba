-- ===== src/Db.antt =====
-- ingestion/db.py: the tables that the writer sees, and the statements that it sends.
pub mod Statements
pub mod Connection
pub mod Keys
pub mod Idempotent
pub mod Rowcount
pub mod Fx
pub mod Atomic
pub mod Symbol
pub mod Refinement
pub mod Landed
use crypto_analytics_platfor.Base.{
  ℕ, ◌+◌, ◌≤◌, ◌<◌, ◌≡◌, Bool, true, false, not, ◌&&◌, ◌||◌, String, List, [], ◌∷◌, Option, ◌==◌,
  length, take, drop, if◌then◌else◌,
}
use crypto_analytics_platfor.Base.Texts.{str_eq}
use crypto_analytics_platfor.Base.Int.{leb_ℤ}
use crypto_analytics_platfor.Base.Result.{Result, ok, err, ◌>>=◌}
use crypto_analytics_platfor.Datetime.{Datetime}
use crypto_analytics_platfor.Decimal.{Decimal}
use crypto_analytics_platfor.Decimal.Order.{le_decimal}
use crypto_analytics_platfor.Json.{Json}
use crypto_analytics_platfor.Models.{Candle, FxRate}

pub record CandleRow : Type 0 where
  pub candle : Candle
  pub ingested_at : Datetime
  pub updated_at : Datetime

pub record FxRow : Type 0 where
  pub fx : FxRate
  pub updated_at : Datetime

pub record SymbolRow : Type 0 where
  pub symbol : String
  pub base_asset : String
  pub quote_asset : String
  pub display_name : String

pub record Reject : Type 0 where
  pub source : String
  pub symbol : Option String
  pub reason : String
  pub payload : Json

pub record Tables : Type 0 where
  pub symbols : List SymbolRow
  pub candles : List CandleRow
  pub fx_rates : List FxRow
  pub rejects : List Reject

-- What PostgreSQL and psycopg2 do to what they are given. A column type may round a value or refuse
-- it, and leaves the key columns as they are. `execute_values` runs the statement on one page after
-- the other, and leaves the row count of the last page.
pub record Driver : Type 0 where
  pub cast_candle : Candle → Result Candle
  pub cast_fx : FxRate → Result FxRate
  pub execute_values :
      (List Candle → Tables → Result (Tables × ℕ)) → ℕ → List Candle → Tables → Result (Tables × ℕ)
  pub cast_candle-key :
      (c d : Candle) → cast_candle c ≡ ok d → (d.symbol ≡ c.symbol) × (d.open_time ≡ c.open_time)
  pub cast_fx-key :
      (r d : FxRate)
      → cast_fx r ≡ ok d
      → (d.base ≡ r.base) × (d.quote ≡ r.quote) × (d.as_of ≡ r.as_of)
  pub one_page :
      (f : List Candle → Tables → Result (Tables × ℕ)) (n : ℕ) (rows : List Candle) (t : Tables)
      → 1 ≤ length rows
      → length rows ≤ n
      → execute_values f n rows t ≡ f rows t
  pub more_pages :
      (f : List Candle → Tables → Result (Tables × ℕ)) (n : ℕ) (rows : List Candle) (t : Tables)
      → 1 ≤ n
      → n < length rows
      → execute_values f n rows t
        ≡ (f (take n rows) t >>= λ done. execute_values f n (drop n rows) done.0)

-- `=` on numeric columns compares the values.
abbrev pub eq_decimal : Decimal → Decimal → Bool
eq_decimal a b = le_decimal a b && le_decimal b a

-- The conflict target (symbol, open_time).
unfoldable pub same_key : Candle → Candle → Bool
same_key c d = str_eq c.symbol d.symbol && c.open_time == d.open_time

-- `(close_price, high_price, low_price, volume, trade_count) IS DISTINCT FROM (...)`
unfoldable pub is_distinct : Candle → Candle → Bool
is_distinct old new =
    not (eq_decimal old.close_price new.close_price)
    || not (eq_decimal old.high_price new.high_price)
    || not (eq_decimal old.low_price new.low_price)
    || not (eq_decimal old.volume new.volume)
    || not (leb_ℤ old.trade_count new.trade_count && leb_ℤ new.trade_count old.trade_count)
