-- ===== src/Tests/Db.antt =====
-- The writer on concrete tables.
use crypto_analytics_platfor.Base.{length}
use crypto_analytics_platfor.Db.Connection.{health, connect}
use crypto_analytics_platfor.Db.Refinement.{Represents, assign_all, upsert_rows-Represents}
use crypto_analytics_platfor.Decimal.{high_side, low_side}
use crypto_analytics_platfor.Db.{is_distinct}
use crypto_analytics_platfor.Db.Statements.{contains_key, has_symbol}
use crypto_analytics_platfor.Base.{
  ℕ, ◌≤◌, ◌≡◌, refl, String, true, false, ◌&&◌, List, [], ◌∷◌, some, arith,
}
use crypto_analytics_platfor.Base.Texts.{str_eq}
use crypto_analytics_platfor.Base.Result.{ok, err, database_error}
use crypto_analytics_platfor.Environment.{no_fault, commit_fails}
use crypto_analytics_platfor.Models.{Candle}
use crypto_analytics_platfor.Db.{Tables, CandleRow, FxRow, SymbolRow, same_key}
use crypto_analytics_platfor.Db.Statements.{upsert_row, upsert_rows, upsert_fx_row, upsert_page}
use crypto_analytics_platfor.Db.Connection.{Database, live, cursor, upsert_candles}
use crypto_analytics_platfor.Db.Atomic.{IsAtomic, cursor-IsAtomic, cursor_keeps_connection}
use crypto_analytics_platfor.Db.Keys.{UniqueKeys, find_row, upsert_row-UniqueKeys}
use crypto_analytics_platfor.Db.Idempotent.{DistinctKeys, upsert_rows_twice}
use crypto_analytics_platfor.Db.Rowcount.{TwoPages, upsert_candles-TwoPages}
use crypto_analytics_platfor.Db.Fx.{
  find_fx, fx_upserted, find_fx-upsert_fx_row, as_of-upsert_fx_row,
}
use crypto_analytics_platfor.Db.Symbol.{known_quotes, split_symbol, Splits, split_symbol-Splits}
use crypto_analytics_platfor.Tests.Worlds.{at, bar, euro, exact_driver}

abbrev symbols : List SymbolRow
symbols =
    record {
      symbol = "BTCUSDT";
      base_asset = "BTC";
      quote_asset = "USDT";
      display_name = "BTC / USDT";
    }
    ∷ []

abbrev row : ℕ → ℕ → ℕ → CandleRow
row n price written = record {
  candle = bar n price;
  ingested_at = at written;
  updated_at = at written;
}

abbrev held : List CandleRow
held = row 1 100 2 ∷ row 2 100 3 ∷ []

abbrev page : List Candle
page = bar 2 200 ∷ bar 3 100 ∷ []

abbrev after : List CandleRow
after = row 1 100 2 ∷ record (row 2 200 3) { updated_at = at 9 } ∷ row 3 100 9 ∷ []

writes_page : upsert_rows symbols (at 9) [] page held ≡ ok (after, 2)
unfolding upsert_rows contains_key has_symbol str_eq upsert_row same_key is_distinct low_side
    high_side
writes_page = refl

page-DistinctKeys : DistinctKeys page
unfolding same_key str_eq
page-DistinctKeys = ((refl, tt), (tt, tt))

upsert_rows_twice_example : upsert_rows symbols (at 10) [] page after ≡ ok (after, 0)
upsert_rows_twice_example =
    upsert_rows_twice symbols (at 9) (at 10) page held (after, 2) page-DistinctKeys writes_page

upsert_rows-Represents_example : Represents after (assign_all (at 9) page (λ d. find_row d held))
upsert_rows-Represents_example =
    upsert_rows-Represents symbols (at 9) [] page held (λ d. find_row d held) (after, 2) writes_page
      (λ d. refl)

held-UniqueKeys : UniqueKeys held
unfolding find_row same_key str_eq
held-UniqueKeys = (refl, (refl, tt))

upsert_row-UniqueKeys_example : UniqueKeys (upsert_row (at 9) (bar 2 200) held).0
upsert_row-UniqueKeys_example = upsert_row-UniqueKeys (at 9) (bar 2 200) held held-UniqueKeys

abbrev pub tables : Tables
tables = record { symbols = symbols; candles = held; fx_rates = []; rejects = [] }

abbrev pub database : Database
database = record { handle = live; tables = tables }

cursor-IsAtomic_example :
    IsAtomic
      (commit_fails true false)
      (upsert_page exact_driver (at 9) page)
      database
      (cursor (commit_fails true false) (upsert_page exact_driver (at 9) page) database)
cursor-IsAtomic_example =
    cursor-IsAtomic (commit_fails true false) (upsert_page exact_driver (at 9) page) database

-- A page with a symbol that the dimension does not have.
abbrev unknown : List Candle
unknown = record (bar 2 200) { symbol = "NOSUCH" } ∷ []

refuses_unknown : upsert_page exact_driver (at 9) unknown tables ≡ err database_error
unfolding upsert_page exact_driver contains_key has_symbol str_eq
refuses_unknown = refl

cursor_keeps_connection_example :
    cursor no_fault (upsert_page exact_driver (at 9) unknown) database
    ≡ (err database_error, database)
cursor_keeps_connection_example =
    cursor_keeps_connection (upsert_page exact_driver (at 9) unknown) database refl refuses_unknown

abbrev written : Database
written = record database { tables = record tables { candles = after } }

-- Both bars of `page` are written, in pages of one; the count is 1.
counts_last_page : upsert_candles exact_driver no_fault (at 9) 1 page database ≡ (ok 1, written)
unfolding upsert_candles exact_driver contains_key has_symbol str_eq upsert_row same_key is_distinct
    low_side high_side
counts_last_page = refl

upsert_candles-TwoPages_example : TwoPages exact_driver (at 9) 1 page database 1 written
upsert_candles-TwoPages_example =
    upsert_candles-TwoPages exact_driver (at 9) 1 page database written 1 (omega arith)
      (omega arith) (omega arith) counts_last_page

abbrev published : FxRow
published = record { fx = euro 5; updated_at = at 6 }

find_fx-upsert_fx_row_example :
    ((find_fx "USD" "EUR" (upsert_fx_row (at 9) (euro 4) (published ∷ [])).0
        ≡ some (fx_upserted (at 9) (euro 4) (find_fx "USD" "EUR" (published ∷ []))).0)
      × ((upsert_fx_row (at 9) (euro 4) (published ∷ [])).1
          ≡ (fx_upserted (at 9) (euro 4) (find_fx "USD" "EUR" (published ∷ []))).1))
    × ((base quote : String)
        → (str_eq "USD" base && str_eq "EUR" quote) ≡ false
        → find_fx base quote (upsert_fx_row (at 9) (euro 4) (published ∷ [])).0
          ≡ find_fx base quote (published ∷ []))
find_fx-upsert_fx_row_example = find_fx-upsert_fx_row (at 9) (euro 4) (published ∷ [])

holds_published : find_fx "USD" "EUR" (published ∷ []) ≡ some published
unfolding find_fx str_eq
holds_published = refl

as_of-upsert_fx_row_example :
    (row : FxRow) × (find_fx "USD" "EUR" (upsert_fx_row (at 9) (euro 4) (published ∷ [])).0
      ≡ some row)
    × (at 5 ≤ row.fx.as_of)
    × (at 4 ≤ row.fx.as_of)
as_of-upsert_fx_row_example = as_of-upsert_fx_row (at 9) (euro 4) (published ∷ []) holds_published

-- A known quote, one whose tail is another known quote, and an unknown shape.
splits_pairs :
    (split_symbol "BTCUSDT" ≡ ("BTC", "USDT"))
    × (split_symbol "ETHFDUSD" ≡ ("ETH", "FDUSD"))
    × (split_symbol "WEIRDPAIR" ≡ ("WEIRDP", "AIR"))
unfolding split_symbol str_eq
splits_pairs = (refl, refl, refl)

split_symbol-Splits_example : Splits known_quotes "BTCUSDT" (split_symbol "BTCUSDT")
split_symbol-Splits_example = split_symbol-Splits "BTCUSDT"

tells_the_probe : health (λ t. "moment") no_fault (at 10) database ≡ (
  ok (record {
    candle_count = length held;
    newest_open_time = some "moment";
    last_ingested_at = some "moment";
    checked_at = "moment";
  }),
  database,
)
unfolding health connect
tells_the_probe = refl
