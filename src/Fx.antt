-- ===== src/Fx.antt =====
-- ingestion/fx.py: the two providers of an FX rate, and the chain that tries them.
pub mod Chain
pub mod Quiet
use Prim.Native.String.{◌++◌ as ◌<>◌}
use crypto_analytics_platfor.Base.{
  ℕ, ◌+◌, ◌*◌, String, Bool, true, false, List, [], ◌∷◌, Option, none, some, pos, leb, ltb, ◌&&◌,
  if◌then◌else◌,
}
use crypto_analytics_platfor.Base.Int.{ℤ, ◌*ℤ◌}
use crypto_analytics_platfor.Base.Result
use crypto_analytics_platfor.Base.Result.{
  Result, ok, err, Exception, validation, fx_error, value_error, key_error, type_error, timeout,
  request,
}
use crypto_analytics_platfor.Base.Strings.{lower}
use crypto_analytics_platfor.Datetime.{Datetime, of_ms}
use crypto_analytics_platfor.Datetime.Calendar.{is_plain_date, plain_date}
use crypto_analytics_platfor.Environment.{Environment, Reply, response, timed_out, transport_failed}
use crypto_analytics_platfor.Json.{Json, null, str, object, Fields, int_of, decimal_of}
use crypto_analytics_platfor.Json
use crypto_analytics_platfor.Json.Access.{get_or, is_text, is_null, truthy}
use crypto_analytics_platfor.Metrics
use crypto_analytics_platfor.Metrics.{
  api_request, rows_rejected, success, http_error, transport_error,
}
use crypto_analytics_platfor.Models.{FxRate, validate_fx}
use crypto_analytics_platfor.Service.{Service, Action, ◌>>=◌, ◌>>◌, pure, lift, emit}

-- SOURCE_NAME
abbrev pub source_name : String
source_name = "fx"

-- `raise_for_status` and `response.json()`: an HTTPError, a JSONDecodeError of requests, and what
-- `session.get` raises are all RequestException.
unfoldable pub json_body : Reply → Result Json
json_body timed_out = err timeout
json_body transport_failed = err request
json_body (response status header none) = err request
json_body (response status header (some body)) =
    if leb 400 status && ltb status 600 then err request else ok body

-- `if rate is None: raise FxError`
unfoldable pub require : Json → Result (Unit {0})
unfolding is_null
require rate = if is_null rate then err fx_error else ok tt

unfoldable pub check_success : Json → Result (Unit {0})
unfolding is_text
check_success result = if is_text result "success" then ok tt else err fx_error

-- The handlers: the event that an exception counts as, if one of them takes it.
unfoldable pub counts_as : Exception → Option Metrics.Event
counts_as (validation _) = some (rows_rejected "fx_rates" "validation")
counts_as timeout = some (api_request source_name transport_error)
counts_as request = some (api_request source_name transport_error)
counts_as fx_error = some (api_request source_name http_error)
counts_as value_error = some (api_request source_name http_error)
counts_as key_error = some (api_request source_name http_error)
counts_as _ = none

module _ (E : Environment) where
  -- `datetime.fromtimestamp(seconds, tz=UTC)`
  unfoldable pub from_timestamp : ℤ → Result Datetime
  unfolding of_ms ◌*ℤ◌
  from_timestamp seconds = elim (of_ms (seconds *ℤ 1000)) [
    | some t ↦ ok t
    | none ↦ err (E.out_of_range seconds)
  ]

  -- `datetime.fromisoformat(value)`
  unfoldable pub from_iso : Json → Result Datetime
  unfolding is_plain_date plain_date
  from_iso (str s) =
      if is_plain_date s
      then elim (plain_date s) [ some t ↦ ok t | none ↦ err value_error ]
      else E.other_iso s
  from_iso _ = err type_error

module _ (E : Environment) (Source : Type 0) where
  open E use {State}

  unfoldable pub read_clock : Action State Source Datetime
  read_clock s = let (t, w) = E.now s.world in (ok t, record s { world = w })

  unfoldable pub get_json : String → Action State Source Json
  unfolding json_body
  get_json url s =
      let (reply, w) = E.get_url url s.world in (json_body reply, record s { world = w })

  unfoldable pub published_at : Json → Action State Source Datetime
  unfolding truthy from_timestamp read_clock
  published_at value =
      if truthy value then lift (Result.◌>>=◌ (int_of value) (from_timestamp E)) else read_clock

  unfoldable pub dated_at : Json → Action State Source Datetime
  unfolding truthy from_iso read_clock
  dated_at value = if truthy value then lift (from_iso E value) else read_clock

  -- `_er_api`
  unfoldable pub er_api : String → String → Action State Source FxRate
  unfolding get_json check_success require published_at decimal_of get_or
  er_api base quote = do
    payload ← get_json ("https://open.er-api.com/v6/latest/" <> base)
    result ← lift (get_or payload "result" null)
    lift (check_success result)
    rates ← lift (get_or payload "rates" (object Json.end))
    rate ← lift (get_or rates quote null)
    lift (require rate)
    published ← lift (get_or payload "time_last_update_unix" null)
    as_of ← published_at published
    value ← lift (decimal_of rate)
    pure (record {
      base = base;
      quote = quote;
      rate = value;
      as_of = as_of;
      source = "open.er-api.com";
    })

  -- `_fawaz`
  unfoldable pub fawaz : String → String → Action State Source FxRate
  unfolding get_json require dated_at decimal_of get_or lower
  fawaz base quote = do
    payload ← get_json (
        "https://cdn.jsdelivr.net/npm/@fawazahmed0/currency-api@latest/v1/currencies/"
        <> (lower base <> ".json"))
    rates ← lift (get_or payload (lower base) (object Json.end))
    rate ← lift (get_or rates (lower quote) null)
    lift (require rate)
    published ← lift (get_or payload "date" null)
    as_of ← dated_at published
    value ← lift (decimal_of rate)
    pure (record {
      base = base;
      quote = quote;
      rate = value;
      as_of = as_of;
      source = "fawazahmed0/currency-api";
    })

  -- PROVIDERS
  abbrev pub Provider : Type 0
  Provider = String → String → Action State Source FxRate

  unfoldable pub providers : List Provider
  unfolding er_api fawaz
  providers = er_api ∷ fawaz ∷ []

  -- The body of the try.
  unfoldable pub ask : Provider → String → String → Action State Source FxRate
  unfolding read_clock validate_fx
  ask provider base quote = do
    rate ← provider base quote
    now ← read_clock
    lift (validate_fx rate now)
    emit (api_request source_name success)
    pure rate

  abbrev pub next_provider :
      Action State Source FxRate → Exception → Option Metrics.Event → Action State Source FxRate
  next_provider rest e (some event) = emit event >> rest
  next_provider rest e none = lift (err e)

  abbrev pub settle :
      Action State Source FxRate
      → Result FxRate × Service State Source
      → Result FxRate × Service State Source
  settle rest (ok rate, s) = (ok rate, s)
  settle rest (err e, s) = next_provider rest e (counts_as e) s

  -- `for provider in PROVIDERS`
  unfoldable pub try_providers : List Provider → String → String → Action State Source FxRate
  unfolding ask counts_as
  try_providers [] base quote s = (err fx_error, s)
  try_providers (provider ∷ rest) base quote s =
      settle (try_providers rest base quote) (ask provider base quote s)

  unfoldable pub fetch_rate : String → String → Action State Source FxRate
  unfolding try_providers providers
  fetch_rate base quote = try_providers providers base quote
