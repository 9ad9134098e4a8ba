-- ===== src/Models/ParseTrust.antt =====
-- What `parse_binance_kline` gives, and what it raises.
use mathlib.Core.Path.{subst}
use crypto_analytics_platfor.Base.{refl, ℕ, String, ◌≡◌, arith, some, inl, inr}
use crypto_analytics_platfor.Base.Int.{ℤ}
use crypto_analytics_platfor.Base.Result.{Result, ok, ◌>>=◌, bind_elim, ok-injective, Result-cases}
use crypto_analytics_platfor.Decimal.{Decimal, finite}
use crypto_analytics_platfor.Datetime.{Datetime, of_ms}
use crypto_analytics_platfor.Json.{Json, item, int_of, decimal_of}
use crypto_analytics_platfor.Models.{Candle, validate_candle}
use crypto_analytics_platfor.Models.Parse.{
  check_array, decimal_field, ms_to_utc, candle_of_kline, parse_binance_kline,
}

-- The positions of a kline array that hold a moment and a decimal.
abbrev pub HoldsMoment : Json → ℕ → Datetime → Type 0
HoldsMoment kline i t =
    (value : Json) × (item kline i ≡ ok value)
    × ((ms : ℤ) × (int_of value ≡ ok ms) × (of_ms ms ≡ some t))

abbrev pub HoldsDecimal : Json → ℕ → Decimal → Type 0
HoldsDecimal kline i d =
    (value : Json) × (item kline i ≡ ok value) × (decimal_of value ≡ ok (finite d))

pub record Reads (symbol : String) (kline : Json) (source : String) (c : Candle) : Type 0 where
  pub symbol_lem : c.symbol ≡ symbol
  pub source_lem : c.source ≡ source
  pub open_time : HoldsMoment kline 0 c.open_time
  pub open_price : HoldsDecimal kline 1 c.open_price
  pub high_price : HoldsDecimal kline 2 c.high_price
  pub low_price : HoldsDecimal kline 3 c.low_price
  pub close_price : HoldsDecimal kline 4 c.close_price
  pub volume : HoldsDecimal kline 5 c.volume
  pub close_time : HoldsMoment kline 6 c.close_time
  pub trade_count : (value : Json) × (item kline 8 ≡ ok value) × (int_of value ≡ ok c.trade_count)
  pub quote_volume : HoldsDecimal kline 7 c.quote_volume
  pub taker_buy_base : HoldsDecimal kline 9 c.taker_buy_base
  pub taker_buy_quote : HoldsDecimal kline 10 c.taker_buy_quote

of_ms-eq-ok :
    (name : String) (value : Json) (ms : ℤ) (t : Datetime)
    → int_of value ≡ ok ms
    → ms_to_utc name value ≡ ok t
    → of_ms ms ≡ some t
unfolding ms_to_utc
of_ms-eq-ok name value ms t e h = ground arith

ms_to_utc-eq-ok :
    (name : String) (value : Json) (t : Datetime)
    → ms_to_utc name value ≡ ok t
    → (ms : ℤ) × (int_of value ≡ ok ms) × (of_ms ms ≡ some t)
unfolding ms_to_utc
ms_to_utc-eq-ok name value t h = elim (Result-cases (int_of value)) [
  | inl (ms, e) ↦ (ms, e, of_ms-eq-ok name value ms t e h)
  | inr (x, e) ↦ absurd (ground arith)
]

decimal_field-eq-ok :
    (name : String) (value : Json) (d : Decimal)
    → decimal_field name value ≡ ok d
    → decimal_of value ≡ ok (finite d)
unfolding decimal_field
decimal_field-eq-ok name value d h = ground arith

module _ {A : Type 0} {P : Type 0} (kline : Json) (i : ℕ) where
  -- A moment or a decimal at a position, for what the rest of the array gives.
  moment_elim :
      (name : String) (f : Datetime → Result A) {a : A}
      → ((item kline i >>= λ value. ms_to_utc name value >>= f) ≡ ok a)
      → ((t : Datetime) → HoldsMoment kline i t → f t ≡ ok a → P)
      → P
  moment_elim name f h k = bind_elim (item kline i) _ h λ value e g.
      bind_elim (ms_to_utc name value) f g
        λ t m rest. k t (value, e, ms_to_utc-eq-ok name value t m) rest

  decimal_elim :
      (name : String) (f : Decimal → Result A) {a : A}
      → ((item kline i >>= λ value. decimal_field name value >>= f) ≡ ok a)
      → ((d : Decimal) → HoldsDecimal kline i d → f d ≡ ok a → P)
      → P
  decimal_elim name f h k = bind_elim (item kline i) _ h λ value e g.
      bind_elim (decimal_field name value) f g
        λ d m rest. k d (value, e, decimal_field-eq-ok name value d m) rest

candle_of_kline-Reads :
    (symbol : String) (kline : Json) (source : String) (c : Candle)
    → candle_of_kline symbol kline source ≡ ok c
    → Reads symbol kline source c
unfolding candle_of_kline
candle_of_kline-Reads symbol kline source c h = moment_elim kline 0 "open_time" _ h λ t0 r0 h0.
    moment_elim kline 6 "close_time" _ h0 λ t1 r1 h1.
      decimal_elim kline 1 "open_price" _ h1 λ d2 r2 h2.
        decimal_elim kline 2 "high_price" _ h2 λ d3 r3 h3.
          decimal_elim kline 3 "low_price" _ h3 λ d4 r4 h4.
            decimal_elim kline 4 "close_price" _ h4 λ d5 r5 h5.
              decimal_elim kline 5 "volume" _ h5 λ d6 r6 h6.
                decimal_elim kline 7 "quote_volume" _ h6 λ d7 r7 h7.
                  bind_elim (item kline 8) _ h7 λ trades e8 h8.
                    bind_elim (int_of trades) _ h8 λ trade_count e9 h9.
                      decimal_elim kline 9 "taker_buy_base" _ h9 λ d10 r10 h10.
                        decimal_elim kline 10 "taker_buy_quote" _ h10 λ d11 r11 h11.
                          subst (Reads symbol kline source) (ok-injective _ c h11) (record {
                            symbol_lem = refl;
                            source_lem = refl;
                            open_time = r0;
                            open_price = r2;
                            high_price = r3;
                            low_price = r4;
                            close_price = r5;
                            volume = r6;
                            close_time = r1;
                            quote_volume = r7;
                            trade_count = (trades, e8, e9);
                            taker_buy_base = r10;
                            taker_buy_quote = r11;
                          })

-- A kline that parses was an array of at least eleven items. Its candle holds the given symbol and
-- source and, field by field, what the positions of the array say, and it has passed the gate.
pub parse_binance_kline-Reads :
    (symbol : String) (kline : Json) (source : String) (now : Datetime) (c : Candle)
    → parse_binance_kline symbol kline source now ≡ ok c
    → (check_array kline ≡ ok tt) × Reads symbol kline source c × (validate_candle c now ≡ ok tt)
unfolding parse_binance_kline
parse_binance_kline-Reads symbol kline source now c h = bind_elim (check_array kline) _ h λ u e0 h0.
    bind_elim (candle_of_kline symbol kline source) _ h0 λ parsed e1 h1.
      bind_elim (validate_candle parsed now) _ h1 λ v e2 h2.
        let same = ok-injective parsed c h2 in
        (
          e0,
          subst (Reads symbol kline source) same
              (candle_of_kline-Reads symbol kline source parsed e1),
          subst (λ x. validate_candle x now ≡ ok tt) same e2,
        )
