-- ===== src/Db/Keys.antt =====
-- The primary key (symbol, open_time), and which rows a statement touches.
use crypto_analytics_platfor.Base.{
  ◌≡◌, ◌↔◌, refl, true, false, List, [], ◌∷◌, Option, none, some, arith, if◌then◌else◌,
}
use crypto_analytics_platfor.Base.Texts.{str_eq_iff}
use crypto_analytics_platfor.Datetime.{Datetime}
use crypto_analytics_platfor.Models.{Candle}
use crypto_analytics_platfor.Db.{CandleRow, same_key, is_distinct}
use crypto_analytics_platfor.Db.Statements.{upsert_row}

pub same_key_iff :
    (c d : Candle) → (same_key c d ≡ true) ↔ ((c.symbol ≡ d.symbol) × (c.open_time ≡ d.open_time))
unfolding same_key
same_key_iff c d = ground (arith, str_eq_iff c.symbol d.symbol)

-- The row of a key.
unfoldable pub find_row : Candle → List CandleRow → Option CandleRow
find_row c [] = none
find_row c (r ∷ rows) = if same_key r.candle c then some r else find_row c rows

-- No key is listed twice.
abbrev pub UniqueKeys : List CandleRow → Type 0
UniqueKeys [] = Unit
UniqueKeys (r ∷ rows) = (find_row r.candle rows ≡ none) × UniqueKeys rows

same_key_trans : (a b c : Candle) → same_key a b ≡ true → same_key a c ≡ same_key b c
unfolding same_key
same_key_trans a b c h = ground (
  arith,
  str_eq_iff a.symbol b.symbol,
  str_eq_iff a.symbol c.symbol,
  str_eq_iff b.symbol c.symbol,
)

pub same_key_sym : (a b : Candle) → same_key a b ≡ same_key b a
unfolding same_key
same_key_sym a b = ground (arith, str_eq_iff a.symbol b.symbol, str_eq_iff b.symbol a.symbol)

pub same_key_refl : (a : Candle) → same_key a a ≡ true
same_key_refl a = (same_key_iff a a).1 (refl, refl)

-- What the upsert of a candle leaves under a key.
unfoldable pub upserted : Datetime → Candle → Option CandleRow → CandleRow
upserted now c none = record { candle = c; ingested_at = now; updated_at = now }
upserted now c (some r) =
    if is_distinct r.candle c then record r { candle = c; updated_at = now } else r

pub find_row-upsert_row_self :
    (now : Datetime) (c : Candle) (rows : List CandleRow)
    → find_row c (upsert_row now c rows).0 ≡ some (upserted now c (find_row c rows))
unfolding find_row upsert_row upserted
find_row-upsert_row_self now c [] = ground (arith, same_key_refl c)
find_row-upsert_row_self now c (r ∷ rows) =
    ground (arith, same_key_refl c, find_row-upsert_row_self now c rows)

pub find_row-upsert_row_ne :
    (now : Datetime) (c d : Candle) (rows : List CandleRow)
    → same_key c d ≡ false
    → find_row d (upsert_row now c rows).0 ≡ find_row d rows
unfolding find_row upsert_row
find_row-upsert_row_ne now c d [] h = ground arith
find_row-upsert_row_ne now c d (r ∷ rows) h =
    ground (arith, same_key_trans r.candle c d, find_row-upsert_row_ne now c d rows h)

pub find_row_same :
    (a b : Candle) (rows : List CandleRow) → same_key a b ≡ true → find_row a rows ≡ find_row b rows
unfolding find_row
find_row_same a b [] h = refl
find_row_same a b (r ∷ rows) h = ground (
  arith,
  find_row_same a b rows h,
  same_key_sym r.candle a,
  same_key_sym r.candle b,
  same_key_trans a b r.candle h,
)

-- The upsert of a candle, new or not, keeps the primary key: no two rows have one symbol and one
-- opening.
pub upsert_row-UniqueKeys :
    (now : Datetime) (c : Candle) (rows : List CandleRow)
    → UniqueKeys rows
    → UniqueKeys (upsert_row now c rows).0
unfolding upsert_row
upsert_row-UniqueKeys now c [] u = unfold find_row in (refl, tt)
upsert_row-UniqueKeys now c (r ∷ rows) u = ground (
  arith,
  find_row_same r.candle c rows,
  find_row-upsert_row_ne now c r.candle rows,
  same_key_sym c r.candle,
  upsert_row-UniqueKeys now c rows u.1,
)
