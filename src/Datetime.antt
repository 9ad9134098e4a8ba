-- ===== src/Datetime.antt =====
-- `datetime` in UTC: microseconds since 0001-01-01T00:00:00, so that every value of the class is a
-- number below `past_max`. Arithmetic that leaves this range raises OverflowError, as in Python.
pub mod Minutes
pub mod Calendar
use crypto_analytics_platfor.Base.{
  ℕ, suc, ◌+◌, ◌-◌, ◌*◌, ◌/◌, ◌%◌, ◌≤◌, ◌<◌, Bool, true, false, Option, none, some, pos, negsuc,
  ltb, leb, if◌then◌else◌,
}
use crypto_analytics_platfor.Base.Int.{ℤ, ◌-ℤ◌, sub_ℕ}
use crypto_analytics_platfor.Base.Result.{Result, ok, err, Exception, overflow_error}

abbrev pub Datetime : Type 0
Datetime = ℕ

-- Microseconds in `timedelta(minutes=1)`.
abbrev pub minute : ℕ
minute = 60000000

-- 1970-01-01, as microseconds since 0001-01-01.
abbrev pub epoch : ℕ
epoch = 62135596800000000

-- 10000-01-01, the first moment that is no `datetime`.
abbrev pub past_max : ℕ
past_max = 315537897600000000

-- `t + delta` and `t - delta`
unfoldable pub plus : Datetime → ℕ → Result Datetime
plus t delta = if ltb (t + delta) past_max then ok (t + delta) else err overflow_error

unfoldable pub minus : Datetime → ℕ → Result Datetime
minus t delta = if leb delta t then ok (t - delta) else err overflow_error

-- `t.second` and `t.microsecond`
abbrev pub second : Datetime → ℕ
second t = t / 1000000 % 60

abbrev pub microsecond : Datetime → ℕ
microsecond t = t % 1000000

-- `t.replace(second=0, microsecond=0)`
unfoldable pub floor_minute : Datetime → Datetime
floor_minute t = t - t % minute

-- `datetime.fromtimestamp(ms / 1000, tz=UTC)`; `none` is a moment outside the range.
unfoldable pub of_ms : ℤ → Option Datetime
of_ms (pos n) = if ltb (epoch + n * 1000) past_max then some (epoch + n * 1000) else none
of_ms (negsuc n) = if leb (suc n * 1000) epoch then some (epoch - suc n * 1000) else none

-- `int(moment.timestamp() * 1000)`, which truncates towards the epoch.
unfoldable pub to_ms : Datetime → ℤ
unfolding ◌-ℤ◌
to_ms t = if leb epoch t then pos ((t - epoch) / 1000) else pos 0 -ℤ pos ((epoch - t) / 1000)
