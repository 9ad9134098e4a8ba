-- ===== src/Sources/Grid.antt =====
-- ingestion/sources/base.py: the minute grid, and the contract of a source.
pub mod Range
use crypto_analytics_platfor.Base.{
  ℕ, zero, suc, ◌+◌, ◌-◌, ◌*◌, ◌/◌, List, [], ◌∷◌, Bool, true, false, String, ltb, pos,
}
use crypto_analytics_platfor.Base.Int.{ℤ, ◌≤ℤ◌, ◌<ℤ◌}
use crypto_analytics_platfor.Base.Result.{Result, ok, err, ◌>>=◌}
use crypto_analytics_platfor.Datetime.{Datetime, minute, floor_minute, plus, minus}

abbrev pub minute_ms : ℕ
minute_ms = 60000

unfoldable pub last_closed_minute : Datetime → Result Datetime
last_closed_minute now = minus (floor_minute now) minute

-- `while cursor < end`, on fuel.
range_loop : ℕ → Datetime → Datetime → Result (List Datetime)
range_loop zero cursor end = ok []
range_loop (suc fuel) cursor end = elim (ltb cursor end) [
  | true ↦ do next ← plus cursor minute; rest ← range_loop fuel next end; ok (cursor ∷ rest)
  | false ↦ ok []
]

-- A round moves the cursor by a minute, so a round for each begun minute and one more suffice.
unfoldable pub minute_range : Datetime → Datetime → Result (List Datetime)
unfolding range_loop
minute_range start end =
    let cursor = floor_minute start in range_loop ((end - cursor) / minute + 2) cursor end
