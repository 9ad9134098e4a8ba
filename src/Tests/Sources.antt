-- ===== src/Tests/Sources.antt =====
-- The Binance client against scripted hosts.
use crypto_analytics_platfor.Base.Int.{◌+ℤ◌}
use crypto_analytics_platfor.Decimal.{high_side, low_side}
use crypto_analytics_platfor.Models.{validate_candle}
use crypto_analytics_platfor.Json.{decimal_of}
use crypto_analytics_platfor.Datetime.{of_ms, plus}
use crypto_analytics_platfor.Sources.Binance.{◌>>=◌}
use crypto_analytics_platfor.Json.{int_of}
use crypto_analytics_platfor.Base.{
  ap, length, ◌*◌, ℕ, ◌+◌, ◌≤◌, ◌<◌, ◌≡◌, refl, List, [], ◌∷◌, inr, none, some, pos, arith, All,
  get_elem?,
}
use crypto_analytics_platfor.Base.Int.{◌-ℤ◌, pos_part}
use crypto_analytics_platfor.Base.Result.{ok, err, source, hosts_failed, type_error}
use crypto_analytics_platfor.Datetime.{Datetime, minute, floor_minute}
use crypto_analytics_platfor.Datetime.Minutes.{IsAligned}
use crypto_analytics_platfor.Environment.{
  Environment, Params, Reply, response, timed_out, absent, delay,
}
use crypto_analytics_platfor.Json.{Json, null, int, array, items}
use crypto_analytics_platfor.Models.Parse.{parse_binance_kline}
use crypto_analytics_platfor.Sources.Grid.{last_closed_minute, minute_range}
use crypto_analytics_platfor.Sources.Grid.Range.{
  boundary, last_closed_minute_lem, get_elem?-minute_range,
}
use crypto_analytics_platfor.Sources.Binance.{Settings, Session}
use crypto_analytics_platfor.Sources.Binance.Rules.{Ensures, Returns}
use crypto_analytics_platfor.Sources.Binance.Page.{fetch_page}
use crypto_analytics_platfor.Sources.Binance.Fetch.{open_ms, parse_page, fetch_loop, fetch}
use crypto_analytics_platfor.Sources.Binance.Failover.{Exhausts, fetch_page-Exhausts}
use crypto_analytics_platfor.Sources.Binance.Elapsed.{
  IsMetered, Within, longest_pause, fetch_page-Within,
}
use crypto_analytics_platfor.Sources.Binance.Fuel.{fetch_loop_fuel}
use crypto_analytics_platfor.Sources.Binance.Kept.{IsSorted, IsKept, fetch-Kept}
use crypto_analytics_platfor.Sources.Binance.Malformed.{
  Raises, IsReadable, IsBeforeEnd, Counts, late, parse_page-Raises, parse_page-Returns,
}
use crypto_analytics_platfor.Tests.Models.{kline, parsed}
use crypto_analytics_platfor.Tests.Worlds.{World, scripted, frozen, at}

abbrev hosts : Settings
hosts = record { hosts = "a" ∷ "b" ∷ []; max_retries = 2 }

-- A page with a good bar, and a bar that opens at the end of the window.
abbrev page : Reply
page = response 200 absent (some (array (items (kline (pos 180000) ∷ kline (pos 240000) ∷ []))))

abbrev session : List Reply → Session World
session replies = record {
  preferred = 0;
  world = record { clock = at 9; replies = replies; faults = [] };
  trace = [];
  calls = [];
}

abbrev served : Session World
served = session (response 451 absent none ∷ page ∷ [])

fetches_bar : (fetch scripted hosts "BTCUSDT" (pos 0) (pos 240000) served).0 ≡ ok (parsed ∷ [])
unfolding fetch ◌>>=◌ int_of parse_binance_kline of_ms decimal_of validate_candle low_side high_side
    plus ◌+ℤ◌
fetches_bar = refl

fetch-Kept_example :
    Ensures
      (λ cs s'. IsSorted cs × All (IsKept "BTCUSDT" (pos 240000)) cs)
      (fetch scripted hosts "BTCUSDT" (pos 0) (pos 240000) served)
fetch-Kept_example = fetch-Kept scripted "BTCUSDT" (pos 240000) hosts (pos 0) served

abbrev params : Params
params = record {
  symbol = "BTCUSDT";
  interval = "1m";
  start_time = pos 0;
  end_time = pos 239999;
  limit = 1000;
}

gives_up :
    (fetch_page scripted hosts params (session (timed_out ∷ []))).0 ≡ err (source hosts_failed)
unfolding fetch_page ◌>>=◌
gives_up = refl

fetch_page-Exhausts_example :
    Exhausts scripted hosts params 4 served (fetch_page scripted hosts params served)
fetch_page-Exhausts_example = fetch_page-Exhausts scripted hosts params served (omega arith)

fetch_loop_fuel_example :
    fetch_loop scripted hosts "BTCUSDT" (pos 2) 3 (pos 0) served
    ≡ fetch_loop scripted hosts "BTCUSDT" (pos 2) 5 (pos 0) served
unfolding ◌-ℤ◌
fetch_loop_fuel_example =
    fetch_loop_fuel scripted hosts "BTCUSDT" (pos 2) 3 5 (pos 0) served left_3 left_5
  where
    left_3 : pos_part (pos 2 -ℤ pos 0) < 3
    left_3 = omega arith

    left_5 : pos_part (pos 2 -ℤ pos 0) < 5
    left_5 = omega arith

-- A kline with no number in front.
abbrev broken : Json
broken = array (items (null ∷ []))

broken_open : open_ms broken ≡ err type_error
unfolding open_ms int_of
broken_open = refl

parse_page-Raises_example :
    Raises (parse_page scripted "BTCUSDT" (pos 240000) (kline (pos 180000) ∷ broken ∷ []) served)
parse_page-Raises_example =
    parse_page-Raises scripted "BTCUSDT" (pos 240000) (kline (pos 180000) ∷ []) [] broken type_error
      served broken_open

-- A kline that stops after its opening.
abbrev short : Json
short = array (items (int (pos 60000) ∷ []))

abbrev klines : List Json
klines = short ∷ short ∷ []

short-IsReadable : IsReadable "BTCUSDT" short
unfolding open_ms parse_binance_kline int_of
short-IsReadable = record { opens = (pos 60000, refl); parses = λ now early. inr (_, refl) }

frozen-IsBeforeEnd : IsBeforeEnd frozen
frozen-IsBeforeEnd w = omega arith

parse_page-Returns_example :
    Returns
      (Counts frozen "BTCUSDT" (pos 240000) frozen-IsBeforeEnd (late (pos 240000) klines) 2 served)
      (parse_page frozen "BTCUSDT" (pos 240000) klines served)
parse_page-Returns_example =
    parse_page-Returns frozen "BTCUSDT" (pos 240000) frozen-IsBeforeEnd klines served
      (short-IsReadable, (short-IsReadable, tt))

last_closed_minute_lem_example :
    (t : Datetime) × (last_closed_minute (at 5 + 7) ≡ ok t)
    × IsAligned t
    × (t + minute ≤ at 5 + 7)
    × (at 5 + 7 < t + minute + minute)
last_closed_minute_lem_example = last_closed_minute_lem (at 5 + 7) (omega arith)

get_elem?-minute_range_example :
    (xs : List Datetime) × (minute_range (at 5 + 7) (at 8) ≡ ok xs)
    × ((i : ℕ) → get_elem? xs i ≡ boundary (floor_minute (at 5 + 7)) (at 8) i)
get_elem?-minute_range_example = get_elem?-minute_range (at 5 + 7) (at 8) (omega arith)

-- A host that always asks for two seconds, on a clock that only sleeping moves.
abbrev busy : Environment
busy = record scripted { get = λ host path params w. (response 429 (delay 2000) none, w) }

abbrev slept_by : World → ℕ
slept_by w = w.clock

delay_of : Reply → ℕ
delay_of (response status (delay d) body) = d
delay_of _ = 0

busy-IsMetered : IsMetered busy slept_by 2000
unfolding delay_of
busy-IsMetered = record {
  draws = λ bound w. refl;
  sleeps = λ d w. omega arith;
  asks = λ host path params w. refl;
  delays = λ host path params w status d body e. omega (arith, ap delay_of e);
}

fetch_page-Within_example :
    Within busy slept_by 2000 busy-IsMetered
      (hosts.max_retries * length hosts.hosts * longest_pause busy slept_by 2000 busy-IsMetered)
      (fetch_page busy hosts params)
      (session [])
fetch_page-Within_example =
    fetch_page-Within busy slept_by 2000 busy-IsMetered hosts params (session [])

-- Four attempts, each of two seconds.
waits_as_asked : (fetch_page busy hosts params (session [])).1.world.clock ≡ at 9 + 8000000
unfolding fetch_page ◌>>=◌
waits_as_asked = refl
