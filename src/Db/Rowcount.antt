-- ===== src/Db/Rowcount.antt =====
-- The row count that `upsert_candles` returns.
use mathlib.Core.Path.{fun_ext, subst}
use crypto_analytics_platfor.Base.{
  ℕ, ◌+◌, ◌≤◌, ◌<◌, ◌≡◌, sym, ◌∙◌, ap, List, [], ◌∷◌, arith, length, take, drop, length-drop,
}
use crypto_analytics_platfor.Base.Result.{Result, ok, bind_elim}
use crypto_analytics_platfor.Datetime.{Datetime}
use crypto_analytics_platfor.Environment.{no_fault}
use crypto_analytics_platfor.Models.{Candle}
use crypto_analytics_platfor.Db.{Tables, Driver}
use crypto_analytics_platfor.Db.Statements.{upsert_page}
use crypto_analytics_platfor.Db.Atomic.{IsAtomic, cursor-IsAtomic}
use crypto_analytics_platfor.Db.Connection.{Database, cursor, upsert_candles}

module _ (D : Driver) (now : Datetime) (n : ℕ) where
  -- With one page the call is the one statement, and its count the statement's.
  pub upsert_candles_one_page :
      (page : List Candle) (db : Database)
      → 1 ≤ length page
      → length page ≤ n
      → upsert_candles D no_fault now n page db ≡ cursor no_fault (upsert_page D now page) db
  unfolding upsert_candles
  upsert_candles_one_page [] db some_row fits = absurd (omega arith)
  upsert_candles_one_page (c ∷ cs) db some_row fits =
      ap (λ (body : Tables → Result (Tables × ℕ)). cursor no_fault body db)
        (fun_ext λ t. D.one_page (upsert_page D now) n (c ∷ cs) t some_row fits)

  -- The counts of the two statements, of which the second alone is returned.
  abbrev pub TwoPages : List Candle → Database → ℕ → Database → Type 0
  TwoPages page db m db' =
      (t : Tables) × (k : ℕ) × (upsert_page D now (take n page) db.tables ≡ ok (t, k))
      × (upsert_page D now (drop n page) t ≡ ok (db'.tables, m))

  split_pages :
      (page : List Candle) (t t' : Tables) (m : ℕ)
      → 1 ≤ n
      → n < length page
      → length page ≤ n + n
      → D.execute_values (upsert_page D now) n page t ≡ ok (t', m)
      → (t1 : Tables) × (k : ℕ) × (upsert_page D now (take n page) t ≡ ok (t1, k))
        × (upsert_page D now (drop n page) t1 ≡ ok (t', m))
  split_pages page t t' m positive more fits h =
      bind_elim (upsert_page D now (take n page) t) _
        (sym (D.more_pages (upsert_page D now) n page t positive more) ∙ h)
        λ first e rest. (
          first.0,
          first.1,
          e,
          sym (
                D.one_page (upsert_page D now) n (drop n page) first.0
                  (omega (arith, length-drop n page)) (omega (arith, length-drop n page)))
              ∙ rest,
        )

  -- With a page size of one at least, and candles that fill more than one page and at most two: if
  -- a call without a fault returns, both pages have been written, the second after the first, and
  -- the count is that of the second page.
  pub upsert_candles-TwoPages :
      (page : List Candle) (db db' : Database) (m : ℕ)
      → 1 ≤ n
      → n < length page
      → length page ≤ n + n
      → upsert_candles D no_fault now n page db ≡ (ok m, db')
      → TwoPages page db m db'
  unfolding upsert_candles
  upsert_candles-TwoPages [] db db' m positive more fits h = absurd (omega arith)
  upsert_candles-TwoPages (c ∷ cs) db db' m positive more fits h =
      let body = D.execute_values (upsert_page D now) n (c ∷ cs) in
      split_pages (c ∷ cs) db.tables db'.tables m positive more fits
        (subst (IsAtomic no_fault body db) h (cursor-IsAtomic no_fault body db)).0
