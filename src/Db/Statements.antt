-- ===== src/Db/Statements.antt =====
-- The SQL of ingestion/db.py, as functions of the tables. `now` is the time of the transaction.
use crypto_analytics_platfor.Base.{
  ℕ, suc, Bool, true, false, ◌&&◌, ◌||◌, String, List, [], ◌∷◌, ◌++◌, Option, none, some, ltb,
  if◌then◌else◌,
}
use Prim.Native.String.{◌++◌ as ◌<>◌}
use crypto_analytics_platfor.Base.Texts.{str_eq}
use crypto_analytics_platfor.Base.Result.{Result, ok, ◌>>=◌, ◌>>◌, raise_if, database_error}
use crypto_analytics_platfor.Datetime.{Datetime}
use crypto_analytics_platfor.Models.{Candle, FxRate}
use crypto_analytics_platfor.Db.{
  Tables, CandleRow, FxRow, SymbolRow, Reject, Driver, same_key, is_distinct,
}

-- INSERT ... ON CONFLICT (symbol, open_time) DO UPDATE ... WHERE ..., for one row. The flag says
-- whether the row was inserted or updated.
unfoldable pub upsert_row : Datetime → Candle → List CandleRow → List CandleRow × Bool
upsert_row now c [] = (record { candle = c; ingested_at = now; updated_at = now } ∷ [], true)
upsert_row now c (r ∷ rows) =
    let (rows', written) = upsert_row now c rows in
    if same_key r.candle c
    then (if is_distinct r.candle c
        then (record r { candle = c; updated_at = now } ∷ rows, true)
        else (r ∷ rows, false))
    else (r ∷ rows', written)

unfoldable pub contains_key : Candle → List Candle → Bool
contains_key c [] = false
contains_key c (d ∷ ds) = same_key d c || contains_key c ds

unfoldable pub has_symbol : String → List SymbolRow → Bool
has_symbol s [] = false
has_symbol s (r ∷ rows) = str_eq r.symbol s || has_symbol s rows

-- One page in one statement. A row that the statement has inserted or updated before cannot be met
-- again, and the symbol must exist; either ends the statement.
unfoldable pub upsert_rows :
    List SymbolRow
    → Datetime
    → List Candle
    → List Candle
    → List CandleRow
    → Result (List CandleRow × ℕ)
upsert_rows symbols now touched [] rows = ok (rows, 0)
upsert_rows symbols now touched (c ∷ cs) rows = do
  raise_if (contains_key c touched) database_error
  raise_if (if has_symbol c.symbol symbols then false else true) database_error
  let (rows', written) = upsert_row now c rows
  (rows'', n) ← upsert_rows symbols now (if written then c ∷ touched else touched) cs rows'
  ok (rows'', (if written then suc n else n))

-- UPSERT_FX: an update only from an older publication.
unfoldable pub upsert_fx_row : Datetime → FxRate → List FxRow → List FxRow × ℕ
upsert_fx_row now r [] = (record { fx = r; updated_at = now } ∷ [], 1)
upsert_fx_row now r (old ∷ rows) =
    let (rows', n) = upsert_fx_row now r rows in
    if str_eq old.fx.base r.base && str_eq old.fx.quote r.quote
    then (if ltb old.fx.as_of r.as_of
        then (record { fx = r; updated_at = now } ∷ rows, 1)
        else (old ∷ rows, 0))
    else (old ∷ rows', n)

module _ (D : Driver) where
  unfoldable pub cast_all : List Candle → Result (List Candle)
  cast_all [] = ok []
  cast_all (c ∷ cs) = do c' ← D.cast_candle c; cs' ← cast_all cs; ok (c' ∷ cs')

  -- UPSERT_CANDLES on one page, with the count of the rows written.
  unfoldable pub upsert_page : Datetime → List Candle → Tables → Result (Tables × ℕ)
  unfolding upsert_rows cast_all
  upsert_page now page t = do
    cs ← cast_all page
    (rows, n) ← upsert_rows t.symbols now [] cs t.candles
    ok (record t { candles = rows }, n)

  unfoldable pub upsert_fx : Datetime → FxRate → Tables → Result (Tables × ℕ)
  unfolding upsert_fx_row
  upsert_fx now r t = do
    r' ← D.cast_fx r
    let (rows, n) = upsert_fx_row now r' t.fx_rates
    ok (record t { fx_rates = rows }, n)

-- INSERT INTO crypto.ingest_rejects
unfoldable pub insert_rejects : List Reject → Tables → Result (Tables × Unit {0})
insert_rejects rejects t = ok (record t { rejects = t.rejects ++ rejects }, tt)

-- The newer of a moment and what the rest has.
abbrev pub newer : Datetime → Option Datetime → Datetime
newer t none = t
newer t (some u) = if ltb t u then u else t

-- SELECT max(open_time) ... WHERE symbol = %s
unfoldable pub max_open_time : String → List CandleRow → Option Datetime
max_open_time s [] = none
max_open_time s (r ∷ rows) =
    let rest = max_open_time s rows in
    if str_eq r.candle.symbol s then some (newer r.candle.open_time rest) else rest

-- INSERT INTO crypto.symbols ... ON CONFLICT (symbol) DO NOTHING
unfoldable pub insert_symbol : String → String → String → Tables → Result (Tables × Unit {0})
unfolding has_symbol
insert_symbol s base quote t =
    if has_symbol s t.symbols
    then ok (t, tt)
    else ok (
      record t {
        symbols =
            t.symbols
            ++ record {
              symbol = s;
              base_asset = base;
              quote_asset = quote;
              display_name = base <> " / " <> quote;
            }
              ∷ [];
      },
      tt,
    )
