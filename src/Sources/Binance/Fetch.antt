-- ===== src/Sources/Binance/Fetch.antt =====
-- `fetch`: the pages of a window, parsed, and sorted by their opening.
use crypto_analytics_platfor.Base.{
  ℕ, zero, suc, ◌+◌, Bool, true, false, String, List, [], ◌∷◌, ◌++◌, pos, leb, ltb, if◌then◌else◌,
  length, get_last,
}
use crypto_analytics_platfor.Base.Int.{ℤ, ◌+ℤ◌, ◌-ℤ◌, ltb_ℤ, leb_ℤ, pos_part}
use crypto_analytics_platfor.Base.Result.{Result, ok, err, Exception, validation}
use crypto_analytics_platfor.Base.Result
use crypto_analytics_platfor.Environment.{Environment, Params}
use crypto_analytics_platfor.Json.{Json, item, int_of}
use crypto_analytics_platfor.Metrics.{rows_rejected}
use crypto_analytics_platfor.Models.{Candle}
use crypto_analytics_platfor.Models.Parse.{check_array, candle_of_kline, parse_binance_kline}
use crypto_analytics_platfor.Sources.Grid.{minute_ms}
use crypto_analytics_platfor.Sources.Binance.{
  Settings, Action, ◌>>=◌, ◌>>◌, pure, raise, lift, emit, max_limit,
}
use crypto_analytics_platfor.Sources.Binance.Page.{fetch_page}

-- `int(kline[0])`
unfoldable pub open_ms : Json → Result ℤ
open_ms kline = Result.◌>>=◌ (item kline 0) int_of

-- `candles.sort(key=lambda c: c.open_time)`, which is stable.
unfoldable pub insert_sorted : Candle → List Candle → List Candle
insert_sorted c [] = c ∷ []
insert_sorted c (d ∷ ds) =
    if leb c.open_time d.open_time then c ∷ d ∷ ds else d ∷ insert_sorted c ds

unfoldable pub sort_candles : List Candle → List Candle
unfolding insert_sorted
sort_candles [] = []
sort_candles (c ∷ cs) = insert_sorted c (sort_candles cs)

-- Where the loop goes on after a page: past its last bar, unless it ends here.
pub data Turn : Type 0 where
  stop : Turn
  go : ℤ → Turn

unfoldable pub advance : ℤ → Json → List Json → Result Turn
unfolding open_ms
advance cursor kline klines = elim (open_ms (get_last kline klines)) [
  | err e ↦ err e
  | ok last ↦
      if leb_ℤ (last +ℤ pos minute_ms) cursor
      then ok stop
      else if ltb (length (kline ∷ klines)) max_limit
      then ok stop
      else ok (go (last +ℤ pos minute_ms))
]

-- `params`; endTime is inclusive on Binance.
unfoldable pub page_params : String → ℤ → ℤ → Params
page_params symbol start end = record {
  symbol = symbol;
  interval = "1m";
  start_time = start;
  end_time = end -ℤ pos 1;
  limit = max_limit;
}

-- The try around `parse_binance_kline`: only a ValidationError drops the bar.
abbrev pub keep_or_drop : {S : Type 0} → Result Candle → Action S (List Candle)
keep_or_drop (ok c) = pure (c ∷ [])
keep_or_drop (err (validation _)) = do
  emit (rows_rejected "market_candles_1m" "source_validation")
  pure []
keep_or_drop (err e) = raise e

-- The kline has been made into a candle, which the gate is still to check.
unfoldable pub is_formed : String → Json → Bool
unfolding check_array candle_of_kline
is_formed symbol kline =
    elim (Result.◌>>=◌ (check_array kline) λ u. candle_of_kline symbol kline "binance") [
      | ok c ↦ true
      | err e ↦ false
    ]

module _ (E : Environment) where
  open E use {State}

  -- The moment at which the gate checks a bar. The clock is read only where the parser has come to the
  -- gate, and the moment is of no use where it has not.
  abbrev pub gate_clock : Bool → Action State ℕ
  gate_clock reached s =
      let (t, w) = E.now s.world in (ok t, (if reached then record s { world = w } else s))

  unfoldable pub parse_or_drop : String → Json → Action State (List Candle)
  unfolding parse_binance_kline is_formed
  parse_or_drop symbol kline = do
    now ← gate_clock (is_formed symbol kline)
    keep_or_drop (parse_binance_kline symbol kline "binance" now)

  -- `for kline in page`
  unfoldable pub parse_page : String → ℤ → List Json → Action State (List Candle)
  unfolding open_ms parse_or_drop
  parse_page symbol end [] = pure []
  parse_page symbol end (kline ∷ klines) = do
    ms ← lift (open_ms kline)
    head ← if leb_ℤ end ms then pure [] else parse_or_drop symbol kline
    tail ← parse_page symbol end klines
    pure (head ++ tail)

  module _ (c : Settings) (symbol : String) (end : ℤ) where
    -- The end of a round: it leaves the loop, or `rest` runs the rounds that follow.
    abbrev pub resume :
        (ℤ → Action State (List Candle)) → List Candle → Turn → Action State (List Candle)
    resume rest candles stop = pure candles
    resume rest candles (go cursor) = do more ← rest cursor; pure (candles ++ more)

    unfoldable pub read_page :
        (ℤ → Action State (List Candle)) → ℤ → List Json → Action State (List Candle)
    unfolding parse_page advance
    read_page rest cursor [] = pure []
    read_page rest cursor (kline ∷ klines) = do
      candles ← parse_page symbol end (kline ∷ klines)
      turn ← lift (advance cursor kline klines)
      resume rest candles turn

    -- `while cursor < end_ms`
    unfoldable pub round : (ℤ → Action State (List Candle)) → ℤ → Action State (List Candle)
    unfolding read_page fetch_page page_params
    round rest cursor =
        if ltb_ℤ cursor end
        then (do page ← fetch_page E c (page_params symbol cursor end); read_page rest cursor page)
        else pure []

    unfoldable pub fetch_loop : ℕ → ℤ → Action State (List Candle)
    unfolding round
    fetch_loop zero cursor = pure []
    fetch_loop (suc fuel) cursor = round (fetch_loop fuel) cursor

  -- Each round moves the cursor by a millisecond at least.
  unfoldable pub fetch : Settings → String → ℤ → ℤ → Action State (List Candle)
  unfolding fetch_loop sort_candles ◌-ℤ◌
  fetch c symbol start end = do
    candles ← fetch_loop c symbol end (pos_part (end -ℤ start) + 1) start
    pure (sort_candles candles)
