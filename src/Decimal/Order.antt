-- ===== src/Decimal/Order.antt =====
-- The comparisons of finite decimals, and that they order the values linearly.
use native.Mathlib.Nat.{le_of_mul-le-mul_right, mul-le-mul_right, one-le-pow}
use crypto_analytics_platfor.Base.{
  ℕ, ◌+◌, ◌*◌, ◌^◌, ◌≤◌, ◌<◌, ◌≡◌, refl, ◌⊎◌, inl, inr, Bool, true, false, arith, ltb, leb,
  if◌then◌else◌, Bool-cases, ◌↔◌,
}
use crypto_analytics_platfor.Base.Int.{pos_part, neg_part}
use crypto_analytics_platfor.Decimal.{Decimal, low_side, high_side, AtMost, Below}

-- `a < b` and `a <= b`
abbrev pub lt_decimal : Decimal → Decimal → Bool
lt_decimal a b = ltb (low_side a b) (high_side a b)

abbrev pub le_decimal : Decimal → Decimal → Bool
le_decimal a b = leb (low_side a b) (high_side a b)

-- `max(a, b)` and `min(a, b)` keep the first of two equal values.
abbrev pub max_decimal : Decimal → Decimal → Decimal
max_decimal a b = if lt_decimal a b then b else a

abbrev pub min_decimal : Decimal → Decimal → Decimal
min_decimal a b = if lt_decimal b a then b else a

high-low : (a b : Decimal) → high_side a b ≡ low_side b a
unfolding low_side high_side
high-low a b = refl

pub AtMost-total : (a b : Decimal) → (AtMost a b) ⊎ (AtMost b a)
unfolding low_side high_side
AtMost-total a b = omega arith

pub AtMost-refl : (a : Decimal) → AtMost a a
unfolding low_side high_side
AtMost-refl a = omega arith

pub Below-AtMost : (a b : Decimal) → Below a b → AtMost a b
Below-AtMost a b h = omega arith

pub lt_decimal_iff : (a b : Decimal) → (lt_decimal a b ≡ true) ↔ (Below a b)
lt_decimal_iff a b = ground arith

pub le_decimal_iff : (a b : Decimal) → (le_decimal a b ≡ true) ↔ (AtMost a b)
le_decimal_iff a b = ground arith

-- Of two values the test `a < b` fails exactly when `b <= a`.
pub lt_decimal-false : (a b : Decimal) → (lt_decimal a b ≡ false) ↔ (AtMost b a)
unfolding low_side high_side
lt_decimal-false a b = ground arith

pub le_decimal-false : (a b : Decimal) → (le_decimal a b ≡ false) ↔ (Below b a)
unfolding low_side high_side
le_decimal-false a b = ground arith

-- The arithmetic of transitivity: `p`, `q`, `r` are the denominators.
chain :
    (ap an bp bn cp cn p q r : ℕ)
    → 0 < q
    → ap * q + bn * p ≤ bp * p + an * q
    → bp * r + cn * q ≤ cp * q + bn * r
    → ap * r + cn * p ≤ cp * p + an * r
chain ap an bp bn cp cn p q r h ab bc =
    le_of_mul-le-mul_right {k = q} (omega (arith, mul-le-mul_right r ab, mul-le-mul_right p bc)) h

pub AtMost-trans : (a b c : Decimal) → AtMost a b → AtMost b c → AtMost a c
unfolding low_side high_side
AtMost-trans a b c =
    chain (pos_part a.mantissa) (neg_part a.mantissa) (pos_part b.mantissa) (neg_part b.mantissa)
      (pos_part c.mantissa) (neg_part c.mantissa) (10 ^ a.scale) (10 ^ b.scale) (10 ^ c.scale)
      (one-le-pow b.scale 10 (omega arith))

-- A value is at least a maximum exactly when it is at least both.
pub max_decimal-AtMost :
    (a b c : Decimal) → (AtMost (max_decimal a b) c) ↔ ((AtMost a c) × (AtMost b c))
max_decimal-AtMost a b c = elim (Bool-cases (lt_decimal a b)) [
  | inl lt ↦
      rw lt
        (λ h. (AtMost-trans a b c (Below-AtMost a b ((lt_decimal_iff a b).0 lt)) h, h), λ h. h.1)
  | inr ge ↦ rw ge (λ h. (h, AtMost-trans b a c ((lt_decimal-false a b).0 ge) h), λ h. h.0)
]

pub AtMost-min_decimal :
    (a b c : Decimal) → (AtMost c (min_decimal a b)) ↔ ((AtMost c a) × (AtMost c b))
AtMost-min_decimal a b c = elim (Bool-cases (lt_decimal b a)) [
  | inl lt ↦
      rw lt
        (λ h. (AtMost-trans c b a h (Below-AtMost b a ((lt_decimal_iff b a).0 lt)), h), λ h. h.1)
  | inr ge ↦ rw ge (λ h. (h, AtMost-trans c a b h ((lt_decimal-false b a).0 ge)), λ h. h.0)
]
