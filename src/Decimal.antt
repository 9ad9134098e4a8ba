-- ===== src/Decimal.antt =====
-- Python's `decimal.Decimal`, as ingestion/models.py uses it: finite values are compared exactly,
-- and infinities and NaN are told apart, since a comparison with NaN raises.
pub mod Order
pub mod Literal
use crypto_analytics_platfor.Base.{ℕ, ◌+◌, ◌*◌, ◌^◌, ◌≤◌, Bool, true, false, pos, if◌then◌else◌}
use crypto_analytics_platfor.Base.Int.{ℤ, ◌*ℤ◌, ◌≤ℤ◌, leb_ℤ, ltb_ℤ, pos_part, neg_part}
use crypto_analytics_platfor.Base.Result.{Result, ok, err, Exception, invalid_operation}

-- A finite value, mantissa / 10 ^ scale.
pub record Decimal : Type 0 where
  pub mantissa : ℤ
  pub scale : ℕ

-- What `Decimal(...)` can give.
pub data AnyDecimal : Type 0 where
  finite : Decimal → AnyDecimal
  infinite : (is_negative : Bool) → AnyDecimal
  nan : AnyDecimal

abbrev pub whole : ℕ → Decimal
whole n = record { mantissa = pos n; scale = 0 }

-- The two sides of a comparison over the common denominator, with the negative parts moved across.
unfoldable pub low_side : Decimal → Decimal → ℕ
low_side a b = pos_part a.mantissa * 10 ^ b.scale + neg_part b.mantissa * 10 ^ a.scale

unfoldable pub high_side : Decimal → Decimal → ℕ
high_side a b = pos_part b.mantissa * 10 ^ a.scale + neg_part a.mantissa * 10 ^ b.scale

-- The order of the values.
abbrev pub AtMost : Decimal → Decimal → Type 0
AtMost a b = low_side a b ≤ high_side a b

abbrev pub Below : Decimal → Decimal → Type 0
Below a b = low_side a b + 1 ≤ high_side a b
