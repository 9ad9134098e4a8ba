-- ===== src/Models/FxTrust.antt =====
-- What `validate_fx` lets through, stated on the values of a rate.
use crypto_analytics_platfor.Base.{
  ℕ, String, ◌+◌, ◌≤◌, ◌<◌, ◌≡◌, refl, ◌↔◌, Bool, false, ◌||◌, ltb, ◌==◌, length, arith,
}
use crypto_analytics_platfor.Base.Texts.{codes}
use crypto_analytics_platfor.Base.Result.{
  ok, raise_if, ◌>>=◌, ◌>>◌, and_then_iff, raise_if_iff, validation, Reason,
}
use crypto_analytics_platfor.Decimal.{
  Decimal, AnyDecimal, finite, infinite, nan, AtMost, Below, whole,
}
use crypto_analytics_platfor.Decimal.Order.{le_decimal-false, lt_decimal-false}
use crypto_analytics_platfor.Datetime.{Datetime, past_max, plus}
use crypto_analytics_platfor.Datetime.Minutes.{plus_lem}
use crypto_analytics_platfor.Models.{FxRate, future_tolerance, validate_fx}

-- A plausible rate: finite, positive, at most a million, not from the future, of a named pair.
pub record IsPlausible (r : FxRate) (now : Datetime) : Type 0 where
  pub value : Decimal
  pub is_finite : r.rate ≡ finite value
  pub is_positive : Below (whole 0) value
  pub bounded : AtMost value (whole 1000000)
  pub timely : r.as_of ≤ now + future_tolerance
  pub has_pair : (1 ≤ length (codes r.base)) × (1 ≤ length (codes r.quote))

pair_test : (m n : ℕ) → ((m == 0 || n == 0) ≡ false) ↔ ((1 ≤ m) × (1 ≤ n))
pair_test m n = ground arith

timely_test : (a b : ℕ) → (ltb b a ≡ false) ↔ (a ≤ b)
timely_test a b = ground arith

-- The checks behind the two that read the value.
rest_iff :
    (base quote : String) (as_of now : Datetime)
    → now + future_tolerance < past_max
    → ((plus now future_tolerance >>= λ latest.
          raise_if (ltb latest as_of) (validation Reason.fx_in_the_future)
          >> raise_if
              (length (codes base) == 0 || length (codes quote) == 0)
              (validation Reason.fx_pair_missing))
        ≡ ok tt)
      ↔ ((as_of ≤ now + future_tolerance)
          × ((1 ≤ length (codes base)) × (1 ≤ length (codes quote))))
rest_iff base quote as_of now early = rw (plus_lem now future_tolerance early) (
    and_then_iff _ _ (raise_if_iff _ _ (timely_test as_of (now + future_tolerance)))
      (raise_if_iff _ _ (pair_test (length (codes base)) (length (codes quote)))))

finite_iff :
    (base quote source : String) (d : Decimal) (as_of now : Datetime)
    → now + future_tolerance < past_max
    → (validate_fx
          (record { base = base; quote = quote; rate = finite d; as_of = as_of; source = source })
          now
        ≡ ok tt)
      ↔ (Below (whole 0) d
          × (AtMost d (whole 1000000)
              × ((as_of ≤ now + future_tolerance)
                  × ((1 ≤ length (codes base)) × (1 ≤ length (codes quote))))))
unfolding validate_fx
finite_iff base quote source d as_of now early =
    and_then_iff _ _ (raise_if_iff _ _ (le_decimal-false d (whole 0))) (
      and_then_iff _ _ (raise_if_iff _ _ (lt_decimal-false (whole 1000000) d))
        (rest_iff base quote as_of now early))

-- A rate that is not finite never passes, whatever the rest of it.
infinite_refused :
    (r : FxRate) (now : Datetime) (is_negative : Bool)
    → r.rate ≡ infinite is_negative
    → ¬ (validate_fx r now ≡ ok tt)
unfolding validate_fx
infinite_refused r now is_negative e = ground arith

nan_refused : (r : FxRate) (now : Datetime) → r.rate ≡ nan → ¬ (validate_fx r now ≡ ok tt)
unfolding validate_fx
nan_refused r now e = ground arith

accepted :
    (r : FxRate) (now : Datetime) (x : AnyDecimal)
    → now + future_tolerance < past_max
    → r.rate ≡ x
    → validate_fx r now ≡ ok tt
    → IsPlausible r now
accepted r now (finite d) early e h =
    let passed = (finite_iff r.base r.quote r.source d r.as_of now early).0 (rw e at h) in
    record {
      value = d;
      is_finite = e;
      is_positive = passed.0;
      bounded = passed.1.0;
      timely = passed.1.1.0;
      has_pair = passed.1.1.1;
    }
accepted r now (infinite is_negative) early e h = absurd (infinite_refused r now is_negative e h)
accepted r now nan early e h = absurd (nan_refused r now e h)

-- `validate_fx` passes exactly the plausible rates, at every moment more than a minute before the
-- end of the calendar.
pub validate_fx_iff :
    (r : FxRate) (now : Datetime)
    → now + future_tolerance < past_max
    → (validate_fx r now ≡ ok tt) ↔ IsPlausible r now
validate_fx_iff r now early = (
  λ h. accepted r now r.rate early refl h,
  λ p. rw p.is_finite (
      (finite_iff r.base r.quote r.source p.value r.as_of now early).1
        (p.is_positive, (p.bounded, (p.timely, p.has_pair)))),
)
