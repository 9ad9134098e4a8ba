-- ===== src/Tests/Replay.antt =====
-- The generator over whole numbers in place of floats.
use crypto_analytics_platfor.Datetime.{plus}
use crypto_analytics_platfor.Base.Texts.{str_eq}
use crypto_analytics_platfor.Decimal.{high_side, low_side}
use crypto_analytics_platfor.Base.{ℕ, ◌+◌, ◌-◌, ◌*◌, ◌/◌, ◌^◌, ◌≡◌, refl, [], ◌∷◌, pos, ltb}
use crypto_analytics_platfor.Base.Int.{pos_part, ◌*ℤ◌}
use crypto_analytics_platfor.Base.Result.{ok, value_error}
use crypto_analytics_platfor.Decimal.{whole}
use crypto_analytics_platfor.Models.{Candle}
use crypto_analytics_platfor.Sources.Grid.{minute_ms}
use crypto_analytics_platfor.Sources.Replay.{Floats, floor_div, fetch}
use crypto_analytics_platfor.Sources.Replay.Grid.{Returned, fetch-Returned}
use crypto_analytics_platfor.Tests.Worlds.{World, scripted, at}

abbrev pub whole_numbers : Floats
whole_numbers = record {
  Float = ℕ;
  literal = λ n k. n / 10 ^ k;
  of_int = pos_part;
  add = λ a b. a + b;
  sub = λ a b. a - b;
  mul = λ a b. a * b;
  div = λ a b. a / b;
  absolute = λ a. a;
  sin = λ a. 0;
  exp = λ a. 1;
  pi = 3;
  greater = λ a b. ltb b a;
  truncated = pos;
  noise = λ key. 7;
  number = λ n. "";
  quantized = λ a. ok (whole a);
  out_of_range = λ n. value_error;
}

abbrev pub world : World
world = record { clock = at 9; replies = []; faults = [] }

abbrev flat : ℕ → Candle
flat n = record {
  symbol = "ETHUSDT";
  open_time = at n;
  close_time = at n + 59999000;
  open_price = whole 1865;
  high_price = whole 1865;
  low_price = whole 1865;
  close_price = whole 1865;
  volume = whole 40;
  quote_volume = whole 74600;
  trade_count = pos 200;
  taker_buy_base = whole 0;
  taker_buy_quote = whole 0;
  source = "replay";
}

-- The start is in the middle of minute 2, and the end in the middle of minute 3.
fills_two_minutes :
    (fetch whole_numbers scripted "ETHUSDT" (pos 200000) (pos 150000) world).0
    ≡ ok (flat 2 ∷ flat 3 ∷ [])
unfolding fetch low_side str_eq high_side plus
fills_two_minutes = refl

fetch-Returned_example :
    Returned whole_numbers scripted "ETHUSDT"
      (pos 200000)
      (floor_div (pos 150000) minute_ms *ℤ minute_ms)
      (fetch whole_numbers scripted "ETHUSDT" (pos 200000) (pos 150000) world)
fetch-Returned_example =
    fetch-Returned whole_numbers scripted "ETHUSDT" (pos 200000) (pos 150000) world
