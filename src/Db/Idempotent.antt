-- ===== src/Db/Idempotent.antt =====
-- Sending a page again writes nothing.
use crypto_analytics_platfor.Base.{
  ℕ, suc, ◌≡◌, refl, ◌∙◌, true, false, List, [], ◌∷◌, Option, none, some, arith, if◌then◌else◌,
  Bool-cases, inl, inr, All,
}
use crypto_analytics_platfor.Base.Result.{ok, Result-cases}
use crypto_analytics_platfor.Datetime.{Datetime}
use crypto_analytics_platfor.Decimal.{Decimal}
use crypto_analytics_platfor.Decimal.Order.{le_decimal, le_decimal_iff, AtMost-refl}
use crypto_analytics_platfor.Models.{Candle}
use crypto_analytics_platfor.Db.{CandleRow, SymbolRow, same_key, is_distinct}
use crypto_analytics_platfor.Db.Statements.{upsert_row, contains_key, has_symbol, upsert_rows}
use crypto_analytics_platfor.Db.Keys.{
  find_row, upserted, find_row-upsert_row_self, find_row-upsert_row_ne, same_key_sym,
}

le_decimal_refl : (a : Decimal) → le_decimal a a ≡ true
le_decimal_refl a = (le_decimal_iff a a).1 (AtMost-refl a)

is_distinct_irrefl : (c : Candle) → is_distinct c c ≡ false
unfolding is_distinct
is_distinct_irrefl c = ground (
  arith,
  le_decimal_refl c.close_price,
  le_decimal_refl c.high_price,
  le_decimal_refl c.low_price,
  le_decimal_refl c.volume,
)

-- The row of the candle's key is there, and its compared columns are the candle's.
abbrev pub IsSettled : Candle → List CandleRow → Type 0
IsSettled c rows = (r : CandleRow) × (find_row c rows ≡ some r) × (is_distinct r.candle c ≡ false)

upserted-settles :
    (now : Datetime) (c : Candle) (o : Option CandleRow)
    → is_distinct (upserted now c o).candle c ≡ false
unfolding upserted
upserted-settles now c none = is_distinct_irrefl c
upserted-settles now c (some r) = elim (Bool-cases (is_distinct r.candle c)) [
  | inl changed ↦ rw (changed, upserted) (is_distinct_irrefl c)
  | inr same ↦ rw (same, upserted) same
]

pub upsert_row-IsSettled :
    (now : Datetime) (c : Candle) (rows : List CandleRow) → IsSettled c (upsert_row now c rows).0
upsert_row-IsSettled now c rows = (
  upserted now c (find_row c rows),
  find_row-upsert_row_self now c rows,
  upserted-settles now c (find_row c rows),
)

pub IsSettled-upsert_row :
    (now : Datetime) (c d : Candle) (rows : List CandleRow)
    → same_key c d ≡ false
    → IsSettled d rows
    → IsSettled d (upsert_row now c rows).0
IsSettled-upsert_row now c d rows other (r, found, same) =
    (r, find_row-upsert_row_ne now c d rows other ∙ found, same)

-- A settled candle is not written.
pub upsert_row_settled :
    (now : Datetime) (c : Candle) (r : CandleRow) (rows : List CandleRow)
    → find_row c rows ≡ some r
    → is_distinct r.candle c ≡ false
    → upsert_row now c rows ≡ (rows, false)
unfolding upsert_row find_row
upsert_row_settled now c r [] h d = cc
upsert_row_settled now c r (x ∷ rows) h d = ground (arith, upsert_row_settled now c r rows)

-- No two candles of the page share a key.
abbrev pub DistinctKeys : List Candle → Type 0
DistinctKeys [] = Unit
DistinctKeys (c ∷ cs) = All (λ d. same_key c d ≡ false) cs × DistinctKeys cs

-- What one row of a statement that returned has done.
abbrev pub Step :
    List SymbolRow
    → Datetime
    → List Candle
    → Candle
    → List Candle
    → List CandleRow
    → List CandleRow × ℕ
    → Type 0
Step symbols now touched c cs rows (rows', n) =
    (contains_key c touched ≡ false)
    × (has_symbol c.symbol symbols ≡ true)
    × ((m : ℕ) × (upsert_rows symbols now
            (if (upsert_row now c rows).1 then c ∷ touched else touched) cs
            (upsert_row now c rows).0
          ≡ ok (rows', m))
        × (n ≡ (if (upsert_row now c rows).1 then suc m else m)))

pub upsert_rows-cons :
    (symbols : List SymbolRow) (now : Datetime) (touched : List Candle) (c : Candle)
    (cs : List Candle) (rows : List CandleRow) (done : List CandleRow × ℕ)
    → upsert_rows symbols now touched (c ∷ cs) rows ≡ ok done
    → Step symbols now touched c cs rows done
unfolding upsert_rows
upsert_rows-cons symbols now touched c cs rows done h =
    elim (Result-cases (
      upsert_rows symbols now (if (upsert_row now c rows).1 then c ∷ touched else touched) cs
        (upsert_row now c rows).0)) [
          | inl (rest, e) ↦ (ground arith, ground arith, (rest.1, ground arith, ground arith))
          | inr (x, e) ↦ absurd (ground arith)
        ]

-- A statement whose candles are all settled returns, and writes nothing.
upsert_rows_settled :
    (symbols : List SymbolRow) (now : Datetime) (page : List Candle) (rows : List CandleRow)
    → All (λ c. has_symbol c.symbol symbols ≡ true) page
    → All (λ c. IsSettled c rows) page
    → upsert_rows symbols now [] page rows ≡ ok (rows, 0)
unfolding upsert_rows contains_key
upsert_rows_settled symbols now [] rows known settled = refl
upsert_rows_settled symbols now (c ∷ cs) rows (k, known) ((r, found, same), settled) = rw (
  k,
  upsert_row_settled now c r rows found same,
  upsert_rows,
  upsert_rows_settled symbols now cs rows known settled,
)

pub upsert_rows-nil :
    (symbols : List SymbolRow) (now : Datetime) (touched : List Candle) (rows : List CandleRow)
    (done : List CandleRow × ℕ)
    → upsert_rows symbols now touched [] rows ≡ ok done
    → done.0 ≡ rows
unfolding upsert_rows
upsert_rows-nil symbols now touched rows done h = ground arith

-- A settled candle of another key stays settled while the statement goes on.
keeps_IsSettled :
    (symbols : List SymbolRow) (now : Datetime) (touched page : List Candle) (rows : List CandleRow)
    (d : Candle) (done : List CandleRow × ℕ)
    → All (λ c. same_key d c ≡ false) page
    → upsert_rows symbols now touched page rows ≡ ok done
    → IsSettled d rows
    → IsSettled d done.0
keeps_IsSettled symbols now touched [] rows d done others h settled =
    rw (upsert_rows-nil symbols now touched rows done h) settled
keeps_IsSettled symbols now touched (c ∷ cs) rows d done others h settled =
    let (_, _, (m, e, _)) = upsert_rows-cons symbols now touched c cs rows done h in
    keeps_IsSettled symbols now (if (upsert_row now c rows).1 then c ∷ touched else touched) cs
      (upsert_row now c rows).0 d (done.0, m) others.1 e
      (IsSettled-upsert_row now c d rows (same_key_sym c d ∙ others.0) settled)

-- After a statement that returned, every candle of its page is settled.
upsert_rows-settles :
    (symbols : List SymbolRow) (now : Datetime) (touched page : List Candle) (rows : List CandleRow)
    (done : List CandleRow × ℕ)
    → DistinctKeys page
    → upsert_rows symbols now touched page rows ≡ ok done
    → All (λ c. IsSettled c done.0) page × All (λ c. has_symbol c.symbol symbols ≡ true) page
upsert_rows-settles symbols now touched [] rows done distinct h = (tt, tt)
upsert_rows-settles symbols now touched (c ∷ cs) rows done (others, distinct) h =
    let (_, known, (m, e, _)) = upsert_rows-cons symbols now touched c cs rows done h in
    let (settled, knowns) =
      upsert_rows-settles symbols now (if (upsert_row now c rows).1 then c ∷ touched else touched)
        cs (upsert_row now c rows).0 (done.0, m) distinct e in
    (
      (
        keeps_IsSettled symbols now (if (upsert_row now c rows).1 then c ∷ touched else touched) cs
            (upsert_row now c rows).0 c (done.0, m) others e (upsert_row-IsSettled now c rows),
        settled,
      ),
      (known, knowns),
    )

-- The upsert is idempotent: once a page of distinct keys has been written, sending it again, at any
-- later time, succeeds, writes no row, and leaves every row as it is.
pub upsert_rows_twice :
    (symbols : List SymbolRow) (now later : Datetime) (page : List Candle) (rows : List CandleRow)
    (done : List CandleRow × ℕ)
    → DistinctKeys page
    → upsert_rows symbols now [] page rows ≡ ok done
    → upsert_rows symbols later [] page done.0 ≡ ok (done.0, 0)
upsert_rows_twice symbols now later page rows done distinct h =
    let (settled, known) = upsert_rows-settles symbols now [] page rows done distinct h in
    upsert_rows_settled symbols later page done.0 known settled
