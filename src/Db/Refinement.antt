-- ===== src/Db/Refinement.antt =====
-- The table of candles as a map from keys, and the statement as an assignment to it.
use crypto_analytics_platfor.Base.{
  ℕ, ◌≡◌, sym, ap, ◌∙◌, List, [], ◌∷◌, Option, some, if◌then◌else◌, Bool-cases, inl, inr,
}
use crypto_analytics_platfor.Base.Result.{ok}
use crypto_analytics_platfor.Datetime.{Datetime}
use crypto_analytics_platfor.Models.{Candle}
use crypto_analytics_platfor.Db.{CandleRow, SymbolRow, same_key}
use crypto_analytics_platfor.Db.Statements.{upsert_row, upsert_rows}
use crypto_analytics_platfor.Db.Keys.{
  find_row, upserted, find_row-upsert_row_self, find_row-upsert_row_ne, find_row_same,
}
use crypto_analytics_platfor.Db.Idempotent.{upsert_rows-cons, upsert_rows-nil}

-- The abstract table: what stands under the key of a candle. It has no order of rows.
abbrev pub View : Type 0
View = Candle → Option CandleRow

-- The assignment to one key.
unfoldable pub assign : Datetime → Candle → View → View
unfolding same_key upserted
assign now c v d = if same_key c d then some (upserted now c (v d)) else v d

-- The candles of a page, one after the other.
unfoldable pub assign_all : Datetime → List Candle → View → View
unfolding assign
assign_all now [] v = v
assign_all now (c ∷ cs) v = assign_all now cs (assign now c v)

-- The rows stand for the map.
abbrev pub Represents : List CandleRow → View → Type 0
Represents rows v = (d : Candle) → find_row d rows ≡ v d

upsert_row-Represents :
    (now : Datetime) (c : Candle) (rows : List CandleRow) (v : View)
    → Represents rows v
    → Represents (upsert_row now c rows).0 (assign now c v)
unfolding assign
upsert_row-Represents now c rows v h d = elim (Bool-cases (same_key c d)) [
  | inl e ↦ rw e (
      sym (find_row_same c d (upsert_row now c rows).0 e)
      ∙ find_row-upsert_row_self now c rows
      ∙ ap (λ o. some (upserted now c o)) (find_row_same c d rows e ∙ h d))
  | inr e ↦ rw e (find_row-upsert_row_ne now c d rows e ∙ h d)
]

-- The statement on a page implements the assignments to a map, in the order of the page: where it
-- returns on rows that stand for a map, its rows stand for the map with every candle of the page
-- assigned. A key that is there and whose compared columns do not change keeps its row.
pub upsert_rows-Represents :
    (symbols : List SymbolRow) (now : Datetime) (touched page : List Candle) (rows : List CandleRow)
    (v : View) (done : List CandleRow × ℕ)
    → upsert_rows symbols now touched page rows ≡ ok done
    → Represents rows v
    → Represents done.0 (assign_all now page v)
unfolding assign_all
upsert_rows-Represents symbols now touched [] rows v done h r =
    λ d. ap (find_row d) (upsert_rows-nil symbols now touched rows done h) ∙ r d
upsert_rows-Represents symbols now touched (c ∷ cs) rows v done h r =
    let (_, _, (m, e, _)) = upsert_rows-cons symbols now touched c cs rows done h in
    upsert_rows-Represents symbols now (if (upsert_row now c rows).1 then c ∷ touched else touched)
      cs (upsert_row now c rows).0 (assign now c v) (done.0, m) e
      (upsert_row-Represents now c rows v r)
