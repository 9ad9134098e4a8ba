-- ===== src/Models/Trust.antt =====
-- What the gate lets through, stated on the values of a bar.
use crypto_analytics_platfor.Base.{
  ℕ, String, ◌+◌, ◌-◌, ◌≤◌, ◌<◌, ◌≡◌, ◌↔◌, List, [], ◌∷◌, false, pos, length, arith, All, not, ◌||◌,
  leb, ltb, ◌==◌, refl,
}
use crypto_analytics_platfor.Base.Int.{◌≤ℤ◌}
use crypto_analytics_platfor.Base.Texts.{codes}
use crypto_analytics_platfor.Base.Result.{
  ok, raise_if, ◌>>=◌, and_then_iff, raise_if_iff, validation, Reason,
}
use crypto_analytics_platfor.Decimal.{Decimal, AtMost, Below, whole}
use crypto_analytics_platfor.Decimal.Order.{
  lt_decimal, le_decimal-false, lt_decimal-false, max_decimal, min_decimal, max_decimal-AtMost,
  AtMost-min_decimal,
}
use crypto_analytics_platfor.Datetime.{Datetime, minute, past_max, second, microsecond, plus}
use crypto_analytics_platfor.Datetime.Minutes.{IsAligned, plus_lem}
use crypto_analytics_platfor.Models.{
  Candle, future_tolerance, priced, counted, check_positive, check_nonnegative, check_bar,
  validate_candle,
}

-- The bar that the docstring of `validate_candle` asks for, at the moment `now`.
pub record IsTrustworthy (c : Candle) (now : Datetime) : Type 0 where
  pub has_symbol : (1 ≤ length (codes c.symbol)) × (length (codes c.symbol) ≤ 20)
  pub opening : Below (whole 0) c.open_price
  pub highest : Below (whole 0) c.high_price
  pub lowest : Below (whole 0) c.low_price
  pub last : Below (whole 0) c.close_price
  pub base_volume : AtMost (whole 0) c.volume
  pub quote_volume : AtMost (whole 0) c.quote_volume
  pub taker_base : AtMost (whole 0) c.taker_buy_base
  pub taker_quote : AtMost (whole 0) c.taker_buy_quote
  pub trades : pos 0 ≤ℤ c.trade_count
  pub low_high : AtMost c.low_price c.high_price
  pub high : AtMost c.open_price c.high_price × AtMost c.close_price c.high_price
  pub low : AtMost c.low_price c.open_price × AtMost c.low_price c.close_price
  pub taker : AtMost c.taker_buy_base c.volume
  pub aligned : IsAligned c.open_time
  pub span : (c.open_time < c.close_time) × (c.close_time ≤ c.open_time + minute)
  pub timely : c.open_time ≤ now + future_tolerance

check_positive_iff :
    (fields : List (String × Decimal))
    → (check_positive fields ≡ ok tt)
      ↔ All (λ (field : String × Decimal). Below (whole 0) field.1) fields
unfolding check_positive
check_positive_iff [] = (λ h. tt, λ h. refl)
check_positive_iff ((name, value) ∷ fields) =
    and_then_iff _ _ (raise_if_iff _ _ (le_decimal-false value (whole 0)))
      (check_positive_iff fields)

check_nonnegative_iff :
    (fields : List (String × Decimal))
    → (check_nonnegative fields ≡ ok tt)
      ↔ All (λ (field : String × Decimal). AtMost (whole 0) field.1) fields
unfolding check_nonnegative
check_nonnegative_iff [] = (λ h. tt, λ h. refl)
check_nonnegative_iff ((name, value) ∷ fields) =
    and_then_iff _ _ (raise_if_iff _ _ (lt_decimal-false value (whole 0)))
      (check_nonnegative_iff fields)

-- The tests on numbers, as what they leave when they fail.
symbol_test : (n : ℕ) → ((n == 0 || ltb 20 n) ≡ false) ↔ ((1 ≤ n) × (n ≤ 20))
symbol_test n = ground arith

IsAligned-test :
    (t : Datetime) → ((not (second t == 0) || not (microsecond t == 0)) ≡ false) ↔ IsAligned t
IsAligned-test t = ground arith

after_test : (a b : ℕ) → (leb b a ≡ false) ↔ (a < b)
after_test a b = ground arith

at_most_test : (a b : ℕ) → (ltb b a ≡ false) ↔ (a ≤ b)
at_most_test a b = ground arith

max_test :
    (c : Candle)
    → (lt_decimal c.high_price (max_decimal c.open_price c.close_price) ≡ false)
      ↔ (AtMost c.open_price c.high_price × AtMost c.close_price c.high_price)
max_test c = (
  λ h. (max_decimal-AtMost _ _ _).0 ((lt_decimal-false _ _).0 h),
  λ h. (lt_decimal-false _ _).1 ((max_decimal-AtMost _ _ _).1 h),
)

min_test :
    (c : Candle)
    → (lt_decimal (min_decimal c.open_price c.close_price) c.low_price ≡ false)
      ↔ (AtMost c.low_price c.open_price × AtMost c.low_price c.close_price)
min_test c = (
  λ h. (AtMost-min_decimal _ _ _).0 ((lt_decimal-false _ _).0 h),
  λ h. (lt_decimal-false _ _).1 ((AtMost-min_decimal _ _ _).1 h),
)

abbrev BarRules : Candle → Type 0
BarRules c =
    AtMost c.low_price c.high_price
    × ((AtMost c.open_price c.high_price × AtMost c.close_price c.high_price)
        × ((AtMost c.low_price c.open_price × AtMost c.low_price c.close_price)
            × (AtMost c.taker_buy_base c.volume
                × (IsAligned c.open_time
                    × ((c.open_time < c.close_time) × (c.close_time - c.open_time ≤ minute))))))

check_bar_iff : (c : Candle) → (check_bar c ≡ ok tt) ↔ BarRules c
unfolding check_bar
check_bar_iff c = and_then_iff _ _ (raise_if_iff _ _ (lt_decimal-false c.high_price c.low_price)) (
    and_then_iff _ _ (raise_if_iff _ _ (max_test c)) (
      and_then_iff _ _ (raise_if_iff _ _ (min_test c)) (
        and_then_iff _ _ (raise_if_iff _ _ (lt_decimal-false c.volume c.taker_buy_base)) (
          and_then_iff _ _ (raise_if_iff _ _ (IsAligned-test c.open_time)) (
            and_then_iff _ _ (raise_if_iff _ _ (after_test c.open_time c.close_time))
              (raise_if_iff _ _ (at_most_test (c.close_time - c.open_time) minute)))))))

timely_iff :
    (c : Candle) (now : Datetime)
    → now + future_tolerance < past_max
    → ((plus now future_tolerance >>= λ latest.
          raise_if (ltb latest c.open_time) (validation Reason.in_the_future))
        ≡ ok tt)
      ↔ (c.open_time ≤ now + future_tolerance)
timely_iff c now early =
    rw (plus_lem now future_tolerance early)
      (raise_if_iff _ _ (at_most_test c.open_time (now + future_tolerance)))

abbrev Rules : Candle → Datetime → Type 0
Rules c now =
    ((1 ≤ length (codes c.symbol)) × (length (codes c.symbol) ≤ 20))
    × (All (λ (field : String × Decimal). Below (whole 0) field.1) (priced c)
        × (All (λ (field : String × Decimal). AtMost (whole 0) field.1) (counted c)
            × ((pos 0 ≤ℤ c.trade_count) × (BarRules c × (c.open_time ≤ now + future_tolerance)))))

Rules-iff : (c : Candle) (now : Datetime) → Rules c now ↔ IsTrustworthy c now
Rules-iff c now = (trust, rules)
  where
    trust : Rules c now → IsTrustworthy c now
    trust (s, (p, (a, (t, (b, f))))) = record {
      has_symbol = s;
      opening = p.0;
      highest = p.1.0;
      lowest = p.1.1.0;
      last = p.1.1.1.0;
      base_volume = a.0;
      quote_volume = a.1.0;
      taker_base = a.1.1.0;
      taker_quote = a.1.1.1.0;
      trades = t;
      low_high = b.0;
      high = b.1.0;
      low = b.1.1.0;
      taker = b.1.1.1.0;
      aligned = b.1.1.1.1.0;
      span = omega (arith, b.1.1.1.1.1);
      timely = f;
    }

    rules : IsTrustworthy c now → Rules c now
    rules t = (
      t.has_symbol,
      (
        (t.opening, (t.highest, (t.lowest, (t.last, tt)))),
        (
          (t.base_volume, (t.quote_volume, (t.taker_base, (t.taker_quote, tt)))),
          (
            t.trades,
            (
              (
                t.low_high,
                (t.high, (t.low, (t.taker, (t.aligned, (t.span.0, omega (arith, t.span)))))),
              ),
              t.timely,
            ),
          ),
        ),
      ),
    )

-- The gate passes a bar exactly when the bar is trustworthy: for every bar, and for every moment
-- more than a minute before the end of the calendar.
pub validate_candle_iff :
    (c : Candle) (now : Datetime)
    → now + future_tolerance < past_max
    → (validate_candle c now ≡ ok tt) ↔ IsTrustworthy c now
unfolding validate_candle
validate_candle_iff c now early =
    (λ h. (Rules-iff c now).0 (chain.0 h), λ t. chain.1 ((Rules-iff c now).1 t))
  where
    chain : (validate_candle c now ≡ ok tt) ↔ Rules c now
    chain = and_then_iff _ _ (raise_if_iff _ _ (symbol_test (length (codes c.symbol)))) (
        and_then_iff _ _ (check_positive_iff (priced c)) (
          and_then_iff _ _ (check_nonnegative_iff (counted c)) (
            and_then_iff _ _ (raise_if_iff _ _ (at_most_test _ _))
              (and_then_iff _ _ (check_bar_iff c) (timely_iff c now early)))))
