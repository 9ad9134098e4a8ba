-- ===== src/Datetime/Minutes.antt =====
-- The minute grid, and the conversion to milliseconds and back on it.
use crypto_analytics_platfor.Base.{
  ℕ, ◌+◌, ◌-◌, ◌*◌, ◌%◌, ◌≤◌, ◌<◌, ◌≡◌, ◌↔◌, some, pos, negsuc, arith,
}
use crypto_analytics_platfor.Base.Int.{ℤ, ◌-ℤ◌, pos_part, neg_part}
use crypto_analytics_platfor.Base.Result.{ok}
use crypto_analytics_platfor.Datetime.{
  Datetime, minute, epoch, past_max, plus, minus, second, microsecond, floor_minute, of_ms, to_ms,
}

abbrev pub IsAligned : Datetime → Type 0
IsAligned t = t % minute ≡ 0

-- A moment lies on the grid exactly when its seconds and microseconds are zero.
pub IsAligned-iff : (t : Datetime) → IsAligned t ↔ ((second t ≡ 0) × (microsecond t ≡ 0))
IsAligned-iff t = (λ h. (omega arith, omega arith), λ h. omega arith)

pub floor_minute_bounds :
    (t : Datetime)
    → IsAligned (floor_minute t) × (floor_minute t ≤ t) × (t < floor_minute t + minute)
unfolding floor_minute
floor_minute_bounds t = omega arith

pub floor_minute-IsAligned : (t : Datetime) → IsAligned t → floor_minute t ≡ t
unfolding floor_minute
floor_minute-IsAligned t h = omega arith

pub plus-eq-ok :
    (t delta : ℕ) {u : Datetime} → plus t delta ≡ ok u → (u ≡ t + delta) × (u < past_max)
unfolding plus
plus-eq-ok t delta h = ground arith

pub minus-eq-ok : (t delta : ℕ) {u : Datetime} → minus t delta ≡ ok u → (u + delta ≡ t)
unfolding minus
minus-eq-ok t delta h = ground arith

pub plus_lem : (t delta : ℕ) → t + delta < past_max → plus t delta ≡ ok (t + delta)
unfolding plus
plus_lem t delta h = ground arith

pub minus_lem : (t delta : ℕ) → delta ≤ t → minus t delta ≡ ok (t - delta)
unfolding minus
minus_lem t delta h = ground arith

-- For every moment of the calendar on a whole millisecond, the moment of its `to_ms` is that
-- moment.
pub of_ms-to_ms : (t : Datetime) → t < past_max → t % 1000 ≡ 0 → of_ms (to_ms t) ≡ some t
unfolding of_ms to_ms ◌-ℤ◌
of_ms-to_ms t h whole = ground arith

-- `fromtimestamp` keeps the order of the millisecond counts, and hits each at its own microsecond.
pub of_ms-eq-some :
    (ms : ℤ) (t : Datetime)
    → of_ms ms ≡ some t
    → (t + neg_part ms * 1000 ≡ epoch + pos_part ms * 1000) × (t < past_max)
unfolding of_ms
of_ms-eq-some (pos n) t h = ground arith
of_ms-eq-some (negsuc n) t h = ground arith

pub to_ms_parts :
    (t : Datetime)
    → t % 1000 ≡ 0
    → t + neg_part (to_ms t) * 1000 ≡ epoch + pos_part (to_ms t) * 1000
unfolding to_ms ◌-ℤ◌
to_ms_parts t h = ground arith
