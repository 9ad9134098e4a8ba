-- ===== src/Tests/Models.antt =====
-- The gate and the parser on concrete bars.
use crypto_analytics_platfor.Json.{decimal_of, int_of}
use crypto_analytics_platfor.Datetime.{plus}
use crypto_analytics_platfor.Decimal.{high_side, low_side}
use crypto_analytics_platfor.Base.{◌≡◌, ◌↔◌, refl, [], ◌∷◌, some, pos, arith}
use crypto_analytics_platfor.Base.Int.{ℤ}
use crypto_analytics_platfor.Base.Result.{ok, err, validation, Reason}
use crypto_analytics_platfor.Datetime.{of_ms, to_ms}
use crypto_analytics_platfor.Datetime.Minutes.{of_ms-to_ms}
use crypto_analytics_platfor.Json.{Json, int, str, array, items}
use crypto_analytics_platfor.Models.{Candle, validate_candle, validate_fx}
use crypto_analytics_platfor.Models.Parse.{check_array, parse_binance_kline}
use crypto_analytics_platfor.Models.ParseTrust.{Reads, parse_binance_kline-Reads}
use crypto_analytics_platfor.Models.Trust.{IsTrustworthy, validate_candle_iff}
use crypto_analytics_platfor.Models.FxTrust.{IsPlausible, validate_fx_iff}
use crypto_analytics_platfor.Tests.Worlds.{at, bar, euro}

validate_candle_iff_example :
    (validate_candle (bar 3 100) (at 4) ≡ ok tt) ↔ IsTrustworthy (bar 3 100) (at 4)
validate_candle_iff_example = validate_candle_iff (bar 3 100) (at 4) (omega arith)

accepts_bar : validate_candle (bar 3 100) (at 4) ≡ ok tt
unfolding validate_candle low_side high_side plus
accepts_bar = refl

refuses_future : validate_candle (bar 3 100) (at 1) ≡ err (validation Reason.in_the_future)
unfolding validate_candle low_side high_side plus
refuses_future = refl

validate_fx_iff_example : (validate_fx (euro 3) (at 4) ≡ ok tt) ↔ IsPlausible (euro 3) (at 4)
validate_fx_iff_example = validate_fx_iff (euro 3) (at 4) (omega arith)

abbrev pub kline : ℤ → Json
kline ms = array (
    items (
      int ms
      ∷ str "100"
      ∷ str "105.5"
      ∷ str "95"
      ∷ str "101"
      ∷ str "12"
      ∷ int (pos 239999)
      ∷ str "1200"
      ∷ int (pos 7)
      ∷ str "6"
      ∷ str "600"
      ∷ []))

abbrev pub parsed : Candle
parsed = record (bar 3 100) { high_price = record { mantissa = pos 1055; scale = 1 } }

parses_kline : parse_binance_kline "BTCUSDT" (kline (pos 180000)) "binance" (at 4) ≡ ok parsed
unfolding parse_binance_kline validate_candle of_ms int_of decimal_of low_side high_side plus
parses_kline = refl

parse_binance_kline-Reads_example :
    (check_array (kline (pos 180000)) ≡ ok tt)
    × Reads "BTCUSDT" (kline (pos 180000)) "binance" parsed
    × (validate_candle parsed (at 4) ≡ ok tt)
parse_binance_kline-Reads_example =
    parse_binance_kline-Reads "BTCUSDT" (kline (pos 180000)) "binance" (at 4) parsed parses_kline

of_ms-to_ms_example : of_ms (to_ms (at 5)) ≡ some (at 5)
of_ms-to_ms_example = of_ms-to_ms (at 5) (omega arith) refl
