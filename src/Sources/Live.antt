-- ===== src/Sources/Live.antt =====
-- The sources that `build_source` makes, as the service calls them.
use crypto_analytics_platfor.Base.{ℕ, ◌≡◌, String, List, [], ◌∷◌, All}
use crypto_analytics_platfor.Base.Int.{ℤ, pos, ◌+ℤ◌, ◌*ℤ◌}
use crypto_analytics_platfor.Base.Result.{Result, ok, err}
use crypto_analytics_platfor.Datetime.{Datetime}
use crypto_analytics_platfor.Environment.{Environment}
use crypto_analytics_platfor.Metrics.{Trace}
use crypto_analytics_platfor.Models.{Candle, validate_candle}
use crypto_analytics_platfor.Models.ParseTrust.{parse_binance_kline-Reads}
use crypto_analytics_platfor.Service.{CandleSources}
use crypto_analytics_platfor.Service.Landed.{Gives, Delivers}
use crypto_analytics_platfor.Sources.Binance
use crypto_analytics_platfor.Sources.Binance.{Settings, Session}
use crypto_analytics_platfor.Sources.Binance.Fetch
use crypto_analytics_platfor.Sources.Binance.Kept.{IsKept, IsSorted, fetch-Kept}
use crypto_analytics_platfor.Sources.Binance.Rules
use crypto_analytics_platfor.Sources.Grid.{minute_ms}
use crypto_analytics_platfor.Sources.Registry.{Built, binance, replay}
use crypto_analytics_platfor.Sources.Replay
use crypto_analytics_platfor.Sources.Replay.{Floats, floor_div}
use crypto_analytics_platfor.Sources.Replay.Grid.{Covers, Returned, fetch-Returned}

-- A source with what its calls change: of the client, the host preferred and the hosts asked.
pub data Live : Type 0 where
  client : Settings → (preferred : ℕ) → (calls : List String) → Live
  generator : Live

-- A new object.
abbrev pub of_built : Built → Live
of_built (binance settings) = client settings 0 []
of_built replay = generator

abbrev pub live_name : Live → String
live_name (client settings preferred calls) = "binance"
live_name generator = "replay"

-- The candle passed the gate at some moment.
abbrev pub Gated : Candle → Type 0
Gated c = (now : Datetime) × (validate_candle c now ≡ ok tt)

-- `release` is what closing an HTTP session does.
module _ (E : Environment) (F : Floats) (release : E.State → E.State) where
  open E use {State}

  abbrev client_result :
      Settings
      → Result (List Candle) × Session State
      → Result (List Candle) × Live × (State × Trace)
  client_result settings (r, s) = (r, client settings s.preferred s.calls, (s.world, s.trace))

  abbrev generator_result :
      Trace → Result (List Candle) × State → Result (List Candle) × Live × (State × Trace)
  generator_result trace (r, w) = (r, generator, (w, trace))

  unfoldable pub fetch_live :
      String → ℤ → ℤ → Live → State × Trace → Result (List Candle) × Live × (State × Trace)
  unfolding Fetch.fetch Replay.fetch
  fetch_live symbol start end (client settings preferred calls) (w, trace) =
      client_result settings (
        Fetch.fetch E settings symbol start end
          (record { preferred = preferred; world = w; trace = trace; calls = calls }))
  fetch_live symbol start end generator (w, trace) =
      generator_result trace (Replay.fetch F E symbol end start w)

  -- `close` of the two classes: the generator inherits the one that does nothing.
  unfoldable pub close_live : Live → State → State
  close_live (client settings preferred calls) w = release w
  close_live generator w = w

  abbrev pub live : CandleSources State
  live = record {
    Source = Live;
    name = live_name;
    fetch = fetch_live;
    close = close_live;
    replay = generator;
  }

  IsKept-Gated : (symbol : String) (end : ℤ) (c : Candle) → IsKept symbol end c → Gated c
  IsKept-Gated symbol end c k =
      let (_, _, passed) = parse_binance_kline-Reads symbol k.kline "binance" k.now c k.parsed in
      (k.now, passed)

  Kept-Gated :
      (symbol : String) (end : ℤ) (cs : List Candle) → All (IsKept symbol end) cs → All Gated cs
  Kept-Gated symbol end [] h = tt
  Kept-Gated symbol end (c ∷ cs) h = (IsKept-Gated symbol end c h.0, Kept-Gated symbol end cs h.1)

  Covers-Gated :
      (symbol : String) (end cursor : ℤ) (cs : List Candle)
      → Covers F symbol end cursor cs
      → All Gated cs
  Covers-Gated symbol end cursor [] h = tt
  Covers-Gated symbol end cursor (c ∷ cs) (before, bar, rest) =
      ((bar.now, bar.passed), Covers-Gated symbol end (cursor +ℤ pos minute_ms) cs rest)

  client-Gives :
      (settings : Settings) (symbol : String) (end : ℤ) (r : Result (List Candle) × Session State)
      → Binance.Rules.Ensures (λ cs s'. IsSorted cs × All (IsKept symbol end) cs) r
      → Gives Gated (client_result settings r)
  client-Gives settings symbol end (ok cs, s) h = Kept-Gated symbol end cs h.1
  client-Gives settings symbol end (err e, s) h = tt

  generator-Gives :
      (symbol : String) (end cursor : ℤ) (trace : Trace) (r : Result (List Candle) × State)
      → Returned F E symbol end cursor r
      → Gives Gated (generator_result trace r)
  generator-Gives symbol end cursor trace (ok cs, w) h = Covers-Gated symbol end cursor cs h
  generator-Gives symbol end cursor trace (err e, w) h = tt

  -- Whatever the exchange answers and the floats are, every candle that a fetch of either source
  -- returns has passed the gate.
  pub live-Delivers : Delivers live Gated
  unfolding fetch_live
  live-Delivers symbol start end (client settings preferred calls) (w, trace) =
      client-Gives settings symbol end _ (fetch-Kept E symbol end settings start _)
  live-Delivers symbol start end generator (w, trace) =
      generator-Gives symbol end (floor_div start minute_ms *ℤ minute_ms) trace _
        (fetch-Returned F E symbol end start w)
