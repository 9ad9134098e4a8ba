-- ===== src/Sources/Grid/Range.antt =====
-- `last_closed_minute` and `minute_range` against the grid.
use crypto_analytics_platfor.Base.{
  ℕ, zero, suc, ◌+◌, ◌-◌, ◌*◌, ◌/◌, ◌≤◌, ◌<◌, ◌≡◌, refl, List, [], ◌∷◌, Option, none, some, ltb,
  get_elem?, arith, if◌then◌else◌, Bool-cases, inl, inr, ltb→lt,
}
use crypto_analytics_platfor.Base.Result.{Result, ok}
use crypto_analytics_platfor.Datetime.{Datetime, minute, past_max, floor_minute}
use crypto_analytics_platfor.Datetime.Minutes.{IsAligned, plus_lem, minus_lem}
use crypto_analytics_platfor.Sources.Grid.{last_closed_minute, range_loop, minute_range}

-- From the second minute of the calendar on there is a last closed minute. It lies on the grid, it
-- has ended by `now`, and the minute after it has not.
pub last_closed_minute_lem :
    (now : Datetime)
    → minute ≤ now
    → (t : Datetime) × (last_closed_minute now ≡ ok t)
      × IsAligned t
      × (t + minute ≤ now)
      × (now < t + minute + minute)
unfolding last_closed_minute floor_minute
last_closed_minute_lem now h = (
  floor_minute now - minute,
  minus_lem (floor_minute now) minute (omega arith),
  omega arith,
  omega arith,
  omega arith,
)

-- The i-th boundary, while it lies before the end.
abbrev pub boundary : Datetime → Datetime → ℕ → Option Datetime
boundary cursor end i = if ltb (cursor + i * minute) end then some (cursor + i * minute) else none

Lists : Datetime → Datetime → Result (List Datetime) → Type 0
Lists cursor end r =
    (xs : List Datetime) × (r ≡ ok xs) × ((i : ℕ) → get_elem? xs i ≡ boundary cursor end i)

get_elem?-step :
    (cursor end : Datetime) (xs : List Datetime)
    → cursor < end
    → ((i : ℕ) → get_elem? xs i ≡ boundary (cursor + minute) end i)
    → (i : ℕ) → get_elem? (cursor ∷ xs) i ≡ boundary cursor end i
get_elem?-step cursor end xs h f zero = ground arith
get_elem?-step cursor end xs h f (suc i) = ground (arith, f i)

range_loop-Lists :
    (fuel : ℕ) (cursor end : Datetime)
    → end < cursor + fuel * minute
    → end + minute ≤ past_max
    → Lists cursor end (range_loop fuel cursor end)
unfolding range_loop Lists
range_loop-Lists zero cursor end enough fits = ([], refl, λ i. ground arith)
range_loop-Lists (suc fuel) cursor end enough fits = elim (Bool-cases (ltb cursor end)) [
  | inl more ↦
      let (xs, e, f) = range_loop-Lists fuel (cursor + minute) end (omega arith) fits in
      (
        cursor ∷ xs,
        rw (more, range_loop, plus_lem cursor minute (omega (arith, ltb→lt cursor end more)), e),
        get_elem?-step cursor end xs (ltb→lt cursor end more) f,
      )
  | inr done ↦ ([], rw (done, range_loop), λ i. ground arith)
]

-- For every range that ends a minute or more before the end of the calendar, `minute_range` gives
-- the boundaries from the minute of `start` on that lie before `end`: at each index that one, and
-- nothing behind the last.
pub get_elem?-minute_range :
    (start end : Datetime)
    → end + minute ≤ past_max
    → (xs : List Datetime) × (minute_range start end ≡ ok xs)
      × ((i : ℕ) → get_elem? xs i ≡ boundary (floor_minute start) end i)
unfolding minute_range Lists
get_elem?-minute_range start end fits =
    range_loop-Lists ((end - floor_minute start) / minute + 2) (floor_minute start) end
      (omega arith) fits
