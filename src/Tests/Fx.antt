-- ===== src/Tests/Fx.antt =====
-- The FX providers, against scripted replies.
use crypto_analytics_platfor.Datetime.{plus}
use crypto_analytics_platfor.Decimal.{high_side, low_side}
use crypto_analytics_platfor.Base.Texts.{str_eq}
use crypto_analytics_platfor.Service.{◌>>=◌}
use crypto_analytics_platfor.Base.{◌≡◌, refl, List, [], ◌∷◌, none, some, pos, false}
use crypto_analytics_platfor.Base.Result.{ok, err, invalid_operation}
use crypto_analytics_platfor.Decimal.{finite}
use crypto_analytics_platfor.Environment.{Reply, response, absent, timed_out}
use crypto_analytics_platfor.Fx.{ask, er_api, counts_as, fetch_rate}
use crypto_analytics_platfor.Fx.Chain.{Chosen, fetch_rate-IsChosen}
use crypto_analytics_platfor.Json
use crypto_analytics_platfor.Json.{Json, int, float, str, object, field}
use crypto_analytics_platfor.Models.{FxRate}
use crypto_analytics_platfor.Service.{Service}
use crypto_analytics_platfor.Service.Rules.{Ensures}
use crypto_analytics_platfor.Tests.Db.{database}
use crypto_analytics_platfor.Tests.Worlds.{World, Canned, scripted, at, euro}

abbrev waiting : List Reply → Service World Canned
waiting replies = record {
  world = record { clock = at 9; replies = replies; faults = [] };
  trace = [];
  db = database;
  source = record { label = "binance"; candles = [] };
  fallback = none;
  consecutive_failures = 0;
  last_fx_refresh = at 0;
  stopping = false;
}

abbrev reply_of : Json → Reply
reply_of body = response 200 absent (some body)

-- The reply_of of the first provider, with a rate.
abbrev er : Json → Reply
er rate = reply_of (
    object (
      field "result" (str "success") (
        field "rates" (object (field "EUR" rate Json.end))
          (field "time_last_update_unix" (int (pos 300)) Json.end))))

-- The second provider's, of the second day of the calendar of Unix.
abbrev fawaz_reply : Reply
fawaz_reply = reply_of (
    object (
      field "usd"
        (object (field "eur" (float (finite (record { mantissa = pos 92; scale = 2 }))) Json.end))
        (field "date" (str "1970-01-01") Json.end)))

abbrev by_fawaz : FxRate
by_fawaz = record (euro 0) { source = "fawazahmed0/currency-api" }

falls_back :
    (fetch_rate scripted Canned "USD" "EUR" (waiting (timed_out ∷ fawaz_reply ∷ []))).0
    ≡ ok by_fawaz
unfolding fetch_rate ◌>>=◌ str_eq low_side high_side plus
falls_back = refl

fetch_rate-IsChosen_example :
    Ensures
      (Chosen scripted Canned "USD" "EUR")
      (fetch_rate scripted Canned "USD" "EUR" (waiting (timed_out ∷ fawaz_reply ∷ [])))
fetch_rate-IsChosen_example =
    fetch_rate-IsChosen scripted Canned "USD" "EUR" (waiting (timed_out ∷ fawaz_reply ∷ []))

-- A rate that is no number, and a second provider that would answer.
abbrev unasked : List Reply
unasked = er (str "n/a") ∷ fawaz_reply ∷ []

abbrev left_over : Service World Canned
left_over = waiting (fawaz_reply ∷ [])

asks_first :
    ask scripted Canned (er_api scripted Canned) "USD" "EUR" (waiting unasked)
    ≡ (err invalid_operation, left_over)
unfolding ask ◌>>=◌ er_api str_eq Json.int_of
asks_first = refl

-- The second provider is not asked.
stops_first :
    fetch_rate scripted Canned "USD" "EUR" (waiting unasked) ≡ (err invalid_operation, left_over)
unfolding fetch_rate counts_as
stops_first = rw asks_first refl
