-- ===== src/Db/Landed.antt =====
-- What the candle statements of ingestion/db.py leave in the tables, row by row.
use crypto_analytics_platfor.Base.{
  ℕ, zero, suc, ◌∙◌, ◌≤◌, ◌≡◌, refl, sym, inl, inr, String, List, [], ◌∷◌, arith, ltb, Bool-cases,
  All, length, take, drop, length-drop, if◌then◌else◌,
}
use mathlib.Core.Path.{subst}
use crypto_analytics_platfor.Base.Result.{Result, ok, err, bind_elim, ok-injective}
use crypto_analytics_platfor.Datetime.{Datetime}
use crypto_analytics_platfor.Db.{Tables, CandleRow, SymbolRow, Driver, same_key, is_distinct}
use crypto_analytics_platfor.Db.Atomic.{IsAtomic, cursor-IsAtomic}
use crypto_analytics_platfor.Db.Connection.{
  Database, cursor, upsert_candles, latest_open_time, ensure_symbol, upsert_fx_rate,
}
use crypto_analytics_platfor.Db.Idempotent.{upsert_rows-cons, upsert_rows-nil}
use crypto_analytics_platfor.Db.Statements.{
  upsert_row, upsert_rows, cast_all, upsert_page, max_open_time, insert_symbol, upsert_fx,
}
use crypto_analytics_platfor.Environment.{Fault}
use crypto_analytics_platfor.Models.{Candle, FxRate}

-- What every transaction keeps, if its body does.
atomic-Keeps :
    {A : Type 0} (T : Tables → Type 0) (fault : Fault) (body : Tables → Result (Tables × A))
    (db : Database) (out : Result A × Database)
    → IsAtomic fault body db out
    → ((t : Tables) (a : A) → body db.tables ≡ ok (t, a) → T t)
    → T db.tables
    → T out.1.tables
atomic-Keeps T fault body db (ok a, db') h k start = k db'.tables a h.0
atomic-Keeps T fault body db (err e, db') (inl same, usable) k start = subst T (sym same) start
atomic-Keeps T fault body db (err e, db') (inr (works, a, f, h), usable) k start = k db'.tables a h

pub cursor-Keeps :
    {A : Type 0} (T : Tables → Type 0) (fault : Fault) (body : Tables → Result (Tables × A))
    (db : Database)
    → ((t : Tables) (a : A) → body db.tables ≡ ok (t, a) → T t)
    → T db.tables
    → T (cursor fault body db).1.tables
cursor-Keeps T fault body db k start =
    atomic-Keeps T fault body db (cursor fault body db) (cursor-IsAtomic fault body db) k start

All-take {ℓ} : {A : Type 0} (P : A → Type ℓ) (n : ℕ) (xs : List A) → All P xs → All P (take n xs)
All-take P zero xs h = tt
All-take P (suc n) [] h = tt
All-take P (suc n) (x ∷ xs) h = (h.0, All-take P n xs h.1)

All-drop {ℓ} : {A : Type 0} (P : A → Type ℓ) (n : ℕ) (xs : List A) → All P xs → All P (drop n xs)
All-drop P zero xs h = h
All-drop P (suc n) [] h = tt
All-drop P (suc n) (x ∷ xs) h = All-drop P n xs h.1

-- Every row of the candle table holds a candle that has the property.
abbrev pub Holds : (Candle → Type 0) → Tables → Type 0
Holds Q t = All (λ (r : CandleRow). Q r.candle) t.candles

-- The column types have made the candle of one that has the property.
abbrev pub Cast : Driver → (Candle → Type 0) → Candle → Type 0
Cast D P d = (c : Candle) × P c × (D.cast_candle c ≡ ok d)

module _ (Q : Candle → Type 0) where
  abbrev Rows : List CandleRow → Type 0
  Rows rows = All (λ (r : CandleRow). Q r.candle) rows

  upsert_row-Rows :
      (now : Datetime) (c : Candle) (rows : List CandleRow)
      → Q c
      → Rows rows
      → Rows (upsert_row now c rows).0
  unfolding upsert_row
  upsert_row-Rows now c [] q h = (q, tt)
  upsert_row-Rows now c (r ∷ rows) q h = elim (Bool-cases (same_key r.candle c)) [
    | inl same ↦ elim (Bool-cases (is_distinct r.candle c)) [
      | inl changed ↦ rw (same, changed) (q, h.1)
      | inr alike ↦ rw (same, alike) h
    ]
    | inr other ↦ rw other (h.0, upsert_row-Rows now c rows q h.1)
  ]

  upsert_rows-Rows :
      (symbols : List SymbolRow) (now : Datetime) (touched cs : List Candle) (rows : List CandleRow)
      (done : List CandleRow × ℕ)
      → upsert_rows symbols now touched cs rows ≡ ok done
      → All Q cs
      → Rows rows
      → Rows done.0
  upsert_rows-Rows symbols now touched [] rows done e q h =
      subst Rows (sym (upsert_rows-nil symbols now touched rows done e)) h
  upsert_rows-Rows symbols now touched (c ∷ cs) rows done e q h =
      let (_, _, (m, f, _)) = upsert_rows-cons symbols now touched c cs rows done e in
      upsert_rows-Rows symbols now (if (upsert_row now c rows).1 then c ∷ touched else touched) cs
        (upsert_row now c rows).0 (done.0, m) f q.1 (upsert_row-Rows now c rows q.0 h)

module _ (D : Driver) (P : Candle → Type 0) where
  cast_all-Cast :
      (cs : List Candle) {out : List Candle}
      → cast_all D cs ≡ ok out
      → All P cs
      → All (Cast D P) out
  unfolding cast_all
  cast_all-Cast [] e h = subst (All (Cast D P)) (ok-injective [] _ e) tt
  cast_all-Cast (c ∷ cs) e h = bind_elim (D.cast_candle c) _ e λ d e1 h1.
      bind_elim (cast_all D cs) _ h1 λ ds e2 h2.
        subst (All (Cast D P)) (ok-injective _ _ h2) ((c, h.0, e1), cast_all-Cast cs e2 h.1)

  upsert_page-Holds :
      (now : Datetime) (page : List Candle) (t : Tables) {out : Tables × ℕ}
      → upsert_page D now page t ≡ ok out
      → All P page
      → Holds (Cast D P) t
      → Holds (Cast D P) out.0
  unfolding upsert_page
  upsert_page-Holds now page t e p h = bind_elim (cast_all D page) _ e λ cs e1 h1.
      bind_elim (upsert_rows t.symbols now [] cs t.candles) _ h1 λ done e2 h2.
        subst (λ (o : Tables × ℕ). Holds (Cast D P) o.0) (ok-injective _ _ h2)
          (upsert_rows-Rows (Cast D P) t.symbols now [] cs t.candles done e2
            (cast_all-Cast page e1 p) h)

  -- Page after page, however many there are.
  pages-Holds :
      (now : Datetime) (n bound : ℕ) (rows : List Candle) (t : Tables) {out : Tables × ℕ}
      → 1 ≤ n
      → length rows ≤ bound
      → 1 ≤ length rows
      → D.execute_values (upsert_page D now) n rows t ≡ ok out
      → All P rows
      → Holds (Cast D P) t
      → Holds (Cast D P) out.0
  pages-Holds now n zero rows t some_n fits some_rows e p h = absurd (omega arith)
  pages-Holds now n (suc bound) rows t some_n fits some_rows e p h =
      elim (Bool-cases (ltb n (length rows))) [
        | inl more ↦
            bind_elim (upsert_page D now (take n rows) t) _
              (sym (D.more_pages (upsert_page D now) n rows t some_n (ground arith)) ∙ e)
              λ done e1 h1.
                pages-Holds now n bound (drop n rows) done.0 some_n
                  (ground (arith, length-drop n rows)) (ground (arith, length-drop n rows)) h1
                  (All-drop P n rows p)
                  (upsert_page-Holds now (take n rows) t e1 (All-take P n rows p) h)
        | inr one ↦
            upsert_page-Holds now rows t
              (sym (D.one_page (upsert_page D now) n rows t some_rows (ground arith)) ∙ e) p h
      ]

  -- A write of candles that have the property, in pages of any size, whatever fails: every row of the
  -- table that held a cast of such a candle still does, and every new row does.
  pub upsert_candles-Holds :
      (fault : Fault) (now : Datetime) (n : ℕ) (cs : List Candle) (db : Database)
      → 1 ≤ n
      → All P cs
      → Holds (Cast D P) db.tables
      → Holds (Cast D P) (upsert_candles D fault now n cs db).1.tables
  unfolding upsert_candles
  upsert_candles-Holds fault now n [] db some_n p h = h
  upsert_candles-Holds fault now n (c ∷ cs) db some_n p h =
      cursor-Keeps (Holds (Cast D P)) fault _ db
        (λ t a e.
          pages-Holds now n (length (c ∷ cs)) (c ∷ cs) db.tables some_n (omega arith) (omega arith)
            e p h)
        h

-- What the other calls leave of the candle table: the whole of it.
quiet :
    {A : Type 0} (fault : Fault) (body : Tables → Result (Tables × A)) (db : Database)
    → ((t : Tables) (a : A) → body db.tables ≡ ok (t, a) → t.candles ≡ db.tables.candles)
    → (cursor fault body db).1.tables.candles ≡ db.tables.candles
quiet fault body db k = cursor-Keeps (λ t. t.candles ≡ db.tables.candles) fault body db k refl

pub latest_open_time_candles :
    (fault : Fault) (symbol : String) (db : Database)
    → (latest_open_time fault symbol db).1.tables.candles ≡ db.tables.candles
unfolding latest_open_time
latest_open_time_candles fault symbol db =
    quiet fault (λ t. ok (t, max_open_time symbol t.candles)) db λ t a e. ground arith

pub ensure_symbol_candles :
    (fault : Fault) (symbol base quote : String) (db : Database)
    → (ensure_symbol fault symbol base quote db).1.tables.candles ≡ db.tables.candles
unfolding ensure_symbol insert_symbol
ensure_symbol_candles fault symbol base quote db =
    quiet fault (insert_symbol symbol base quote) db λ t a e. ground arith

pub upsert_fx_rate_candles :
    (D : Driver) (fault : Fault) (now : Datetime) (r : FxRate) (db : Database)
    → (upsert_fx_rate D fault now r db).1.tables.candles ≡ db.tables.candles
unfolding upsert_fx_rate upsert_fx
upsert_fx_rate_candles D fault now r db =
    quiet fault (upsert_fx D now r) db λ t a e. bind_elim (D.cast_fx r) _ e λ r' e1 h1. ground arith
