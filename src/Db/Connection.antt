-- ===== src/Db/Connection.antt =====
-- `class Database`: one connection, a transaction for each call.
use crypto_analytics_platfor.Base.{
  ℕ, Bool, true, String, List, [], ◌∷◌, Option, none, some, if◌then◌else◌, length,
}
use crypto_analytics_platfor.Base.Result.{Result, ok, err, ◌>>=◌, database_error}
use crypto_analytics_platfor.Datetime.{Datetime}
use crypto_analytics_platfor.Environment.{Fault, connect_fails, statement_fails, commit_fails}
use crypto_analytics_platfor.Models.{Candle, FxRate}
use crypto_analytics_platfor.Db.{Tables, Driver, Reject, CandleRow}
use crypto_analytics_platfor.Db.Statements.{
  upsert_page, upsert_fx, insert_rejects, max_open_time, insert_symbol, newer,
}

-- `_conn`: None, a closed connection, an open one, or an open one on which the server has aborted the
-- transaction: it answers every statement with an error until a rollback.
pub data Handle : Type 0 where
  absent closed live aborted : Handle

-- The object, and the tables that have been committed.
pub record Database : Type 0 where
  pub handle : Handle
  pub tables : Tables

abbrev pub open_handle : Handle → Fault → Database → Result (Unit {0}) × Database
open_handle live fault db = (ok tt, db)
open_handle aborted fault db = (ok tt, db)
open_handle _ connect_fails db = (err database_error, db)
open_handle _ _ db = (ok tt, record db { handle = live })

-- `connect`: a new connection only where there is no open one.
unfoldable pub connect : Fault → Database → Result (Unit {0}) × Database
connect fault db = open_handle db.handle fault db

unfoldable pub close : Database → Database
close db = record db { handle = absent }

-- The handler: `rollback`, which ends the transaction, and `close` where that raises.
unfoldable pub roll_back : Bool → Database → Database
unfolding close
roll_back rollback_works db = if rollback_works then record db { handle = live } else close db

-- What the server does to a transaction in which something has failed.
abbrev pub abort : Database → Database
abort db = record db { handle = aborted }

abbrev pub rollback_of : Fault → Bool
rollback_of (statement_fails works) = works
rollback_of (commit_fails _ works) = works
rollback_of _ = true

-- How the transaction ends, from what its body gives or raises.
abbrev pub finish : {A : Type 0} → Fault → Database → Result (Tables × A) → Result A × Database
finish fault db (err e) = (err e, roll_back (rollback_of fault) (abort db))
finish (statement_fails works) db (ok _) = (err database_error, roll_back works (abort db))
finish (commit_fails applied works) db (ok (t, a)) = (
  err database_error,
  roll_back works (abort (record db { tables = if applied then t else db.tables })),
)
finish _ db (ok (t, a)) = (ok a, record db { tables = t })

-- The statements of a body, on the connection as it is.
abbrev pub run_body :
    {A : Type 0} → Handle → (Tables → Result (Tables × A)) → Tables → Result (Tables × A)
run_body aborted body t = err database_error
run_body _ body t = body t

abbrev pub on_connection :
    {A : Type 0}
    → Fault
    → (Tables → Result (Tables × A))
    → Result (Unit {0}) × Database
    → Result A × Database
on_connection fault body (ok _, db) = finish fault db (run_body db.handle body db.tables)
on_connection fault body (err e, db) = (err e, db)

-- `with self.cursor() as cur: ...`
unfoldable pub cursor :
    {A : Type 0} → Fault → (Tables → Result (Tables × A)) → Database → Result A × Database
unfolding connect roll_back
cursor fault body db = on_connection fault body (connect fault db)

module _ (D : Driver) where
  unfoldable pub upsert_candles :
      Fault → Datetime → ℕ → List Candle → Database → Result ℕ × Database
  unfolding cursor upsert_page
  upsert_candles fault now page_size [] db = (ok 0, db)
  upsert_candles fault now page_size (c ∷ cs) db =
      cursor fault (D.execute_values (upsert_page D now) page_size (c ∷ cs)) db

  unfoldable pub upsert_fx_rate : Fault → Datetime → FxRate → Database → Result ℕ × Database
  unfolding cursor upsert_fx
  upsert_fx_rate fault now r db = cursor fault (upsert_fx D now r) db

unfoldable pub record_rejects : Fault → List Reject → Database → Result ℕ × Database
unfolding cursor insert_rejects
record_rejects fault [] db = (ok 0, db)
record_rejects fault (r ∷ rs) db =
    cursor fault
      (λ t.
        insert_rejects (r ∷ rs) t >>= λ (done : Tables × Unit {0}). ok (done.0, length (r ∷ rs)))
      db

unfoldable pub latest_open_time : Fault → String → Database → Result (Option Datetime) × Database
unfolding cursor max_open_time
latest_open_time fault symbol db = cursor fault (λ t. ok (t, max_open_time symbol t.candles)) db

unfoldable pub ensure_symbol :
    Fault → String → String → String → Database → Result (Unit {0}) × Database
unfolding cursor insert_symbol
ensure_symbol fault symbol base quote db = cursor fault (insert_symbol symbol base quote) db

-- What `health` tells the probe; `iso` is `isoformat`.
pub record Health : Type 0 where
  pub candle_count : ℕ
  pub newest_open_time : Option String
  pub last_ingested_at : Option String
  pub checked_at : String

abbrev pub newest_of : (CandleRow → Datetime) → List CandleRow → Option Datetime
newest_of column [] = none
newest_of column (r ∷ rows) = some (newer (column r) (newest_of column rows))

abbrev pub printed_moment : (iso : Datetime → String) → Option Datetime → Option String
printed_moment iso none = none
printed_moment iso (some t) = some (iso t)

unfoldable pub health :
    (iso : Datetime → String) → Fault → Datetime → Database → Result Health × Database
unfolding cursor
health iso fault now db =
    cursor fault
      (λ t. ok (
        t,
        record {
          candle_count = length t.candles;
          newest_open_time =
              printed_moment iso (newest_of (λ (r : CandleRow). r.candle.open_time) t.candles);
          last_ingested_at =
              printed_moment iso (newest_of (λ (r : CandleRow). r.ingested_at) t.candles);
          checked_at = iso now;
        },
      ))
      db
