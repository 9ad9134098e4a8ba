-- ===== src/Db/Fx.antt =====
-- The FX table: one row for a pair, which only a newer publication replaces.
use crypto_analytics_platfor.Base.{
  ℕ, ◌≤◌, ◌≡◌, String, false, ◌&&◌, List, [], ◌∷◌, Option, none, some, arith, ltb, if◌then◌else◌,
}
use crypto_analytics_platfor.Base.Texts.{str_eq, str_eq_iff}
use crypto_analytics_platfor.Datetime.{Datetime}
use crypto_analytics_platfor.Models.{FxRate}
use crypto_analytics_platfor.Db.{FxRow}
use crypto_analytics_platfor.Db.Statements.{upsert_fx_row}

unfoldable pub find_fx : String → String → List FxRow → Option FxRow
find_fx base quote [] = none
find_fx base quote (r ∷ rows) =
    if str_eq r.fx.base base && str_eq r.fx.quote quote then some r else find_fx base quote rows

-- What the statement leaves of its pair, and the row count it reports.
unfoldable pub fx_upserted : Datetime → FxRate → Option FxRow → FxRow × ℕ
fx_upserted now r none = (record { fx = r; updated_at = now }, 1)
fx_upserted now r (some old) =
    if ltb old.fx.as_of r.as_of then (record { fx = r; updated_at = now }, 1) else (old, 0)

module _ (now : Datetime) (r : FxRate) where
  find_fx_self :
      (rows : List FxRow)
      → (find_fx r.base r.quote (upsert_fx_row now r rows).0
          ≡ some (fx_upserted now r (find_fx r.base r.quote rows)).0)
        × ((upsert_fx_row now r rows).1 ≡ (fx_upserted now r (find_fx r.base r.quote rows)).1)
  unfolding find_fx upsert_fx_row fx_upserted
  find_fx_self [] = ground (arith, str_eq_iff r.base r.base, str_eq_iff r.quote r.quote)
  find_fx_self (old ∷ rows) =
      ground (arith, str_eq_iff r.base r.base, str_eq_iff r.quote r.quote, find_fx_self rows)

  find_fx_other :
      (base quote : String) (rows : List FxRow)
      → (str_eq r.base base && str_eq r.quote quote) ≡ false
      → find_fx base quote (upsert_fx_row now r rows).0 ≡ find_fx base quote rows
  unfolding find_fx upsert_fx_row
  find_fx_other base quote [] other = ground arith
  find_fx_other base quote (old ∷ rows) other = ground (
    arith,
    find_fx_other base quote rows other,
    str_eq_iff old.fx.base r.base,
    str_eq_iff old.fx.quote r.quote,
    str_eq_iff old.fx.base base,
    str_eq_iff r.base base,
    str_eq_iff r.quote quote,
    str_eq_iff old.fx.quote quote,
  )

  -- The upsert of a rate, on any table: the pair's row becomes the rate, with count 1, if there was
  -- none or the rate is of a later publication; otherwise the row stays, with count 0. The row of
  -- every other pair stays.
  pub find_fx-upsert_fx_row :
      (rows : List FxRow)
      → ((find_fx r.base r.quote (upsert_fx_row now r rows).0
            ≡ some (fx_upserted now r (find_fx r.base r.quote rows)).0)
          × ((upsert_fx_row now r rows).1 ≡ (fx_upserted now r (find_fx r.base r.quote rows)).1))
        × ((base quote : String)
            → (str_eq r.base base && str_eq r.quote quote) ≡ false
            → find_fx base quote (upsert_fx_row now r rows).0 ≡ find_fx base quote rows)
  find_fx-upsert_fx_row rows =
      (find_fx_self rows, λ base quote other. find_fx_other base quote rows other)

  -- The upsert of a rate on a table that holds its pair: the pair's row is of a publication not
  -- before the old row's, and not before the rate's.
  pub as_of-upsert_fx_row :
      (rows : List FxRow) {old : FxRow}
      → find_fx r.base r.quote rows ≡ some old
      → (row : FxRow) × (find_fx r.base r.quote (upsert_fx_row now r rows).0 ≡ some row)
        × (old.fx.as_of ≤ row.fx.as_of)
        × (r.as_of ≤ row.fx.as_of)
  unfolding fx_upserted
  as_of-upsert_fx_row rows {old} h = (
    (fx_upserted now r (find_fx r.base r.quote rows)).0,
    (find_fx_self rows).0,
    ground arith,
    ground arith,
  )
