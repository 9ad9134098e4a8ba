-- ===== src/Db/Atomic.antt =====
-- A transaction is all or nothing, and what a failed one leaves of the connection.
use crypto_analytics_platfor.Base.{◌≡◌, refl, ◌⊎◌, inl, inr, Bool, true, false}
use crypto_analytics_platfor.Base.Result.{Result, ok, err, Exception}
use crypto_analytics_platfor.Environment.{
  Fault, no_fault, connect_fails, statement_fails, commit_fails,
}
use crypto_analytics_platfor.Db.{Tables}
use crypto_analytics_platfor.Db.Connection.{
  Handle, absent, closed, live, aborted, abort, run_body, Database, open_handle, connect,
  rollback_of, roll_back, finish, on_connection, cursor,
}

-- A connection that the next call can use: it is not left in an aborted transaction.
abbrev pub Usable : Handle → Type 0
Usable aborted = ⊥
Usable _ = Unit

-- What a transaction has done, by how it ended: it returned, and all of the body is committed and
-- the connection is open; or it raised, and the tables are as before, or the commit took effect and
-- was reported as failed, and the connection can be used again or is dropped.
abbrev pub IsAtomic :
    {A : Type 0} → Fault → (Tables → Result (Tables × A)) → Database → Result A × Database → Type 0
IsAtomic fault body db (ok a, db') = (body db.tables ≡ ok (db'.tables, a)) × (db'.handle ≡ live)
IsAtomic {A} fault body db (err e, db') =
    ((db'.tables ≡ db.tables)
      ⊎ ((works : Bool) × (a : A) × (fault ≡ commit_fails true works)
          × (body db.tables ≡ ok (db'.tables, a))))
    × Usable db'.handle

rolled_back :
    (works : Bool) (db : Database)
    → ((roll_back works db).tables ≡ db.tables) × Usable (roll_back works db).handle
unfolding roll_back
rolled_back true db = (refl, tt)
rolled_back false db = (refl, tt)

finish-IsAtomic :
    {A : Type 0} (fault : Fault) (body : Tables → Result (Tables × A)) (db : Database)
    (r : Result (Tables × A))
    → body db.tables ≡ r
    → db.handle ≡ live
    → IsAtomic fault body db (finish fault db r)
unfolding roll_back
finish-IsAtomic fault body db (err e) h l =
    let back = rolled_back (rollback_of fault) (abort db) in (inl back.0, back.1)
finish-IsAtomic no_fault body db (ok (t, a)) h l = (h, l)
finish-IsAtomic connect_fails body db (ok (t, a)) h l = (h, l)
finish-IsAtomic (statement_fails true) body db (ok (t, a)) h l = (inl refl, tt)
finish-IsAtomic (statement_fails false) body db (ok (t, a)) h l = (inl refl, tt)
finish-IsAtomic (commit_fails false true) body db (ok (t, a)) h l = (inl refl, tt)
finish-IsAtomic (commit_fails false false) body db (ok (t, a)) h l = (inl refl, tt)
finish-IsAtomic (commit_fails true true) body db (ok (t, a)) h l = (inr (true, a, refl, h), tt)
finish-IsAtomic (commit_fails true false) body db (ok (t, a)) h l = (inr (false, a, refl, h), tt)

-- On a connection that is open and not aborted.
on_live-IsAtomic :
    {A : Type 0} (fault : Fault) (body : Tables → Result (Tables × A)) (db : Database) (h : Handle)
    → db.handle ≡ h
    → h ≡ live
    → IsAtomic fault body db (finish fault db (run_body h body db.tables))
on_live-IsAtomic fault body db live e f = finish-IsAtomic fault body db (body db.tables) refl e
on_live-IsAtomic fault body db absent e f = absurd cc
on_live-IsAtomic fault body db closed e f = absurd cc
on_live-IsAtomic fault body db aborted e f = absurd cc

opened-IsAtomic :
    {A : Type 0} (fault : Fault) (body : Tables → Result (Tables × A)) (db : Database) (h : Handle)
    → db.handle ≡ h
    → IsAtomic fault body db (on_connection fault body (open_handle h fault db))
opened-IsAtomic fault body db live e = on_live-IsAtomic fault body db db.handle refl e
opened-IsAtomic fault body db aborted e =
    rw e (let back = rolled_back (rollback_of fault) (abort db) in (inl back.0, back.1))
opened-IsAtomic connect_fails body db absent e = (inl refl, rw e tt)
opened-IsAtomic connect_fails body db closed e = (inl refl, rw e tt)
opened-IsAtomic no_fault body db _ e =
    finish-IsAtomic no_fault body (record db { handle = live }) (body db.tables) refl refl
opened-IsAtomic (statement_fails works) body db _ e =
    finish-IsAtomic (statement_fails works) body (record db { handle = live }) (body db.tables) refl
      refl
opened-IsAtomic (commit_fails applied works) body db _ e =
    finish-IsAtomic (commit_fails applied works) body (record db { handle = live }) (body db.tables)
      refl refl

-- Every transaction, whatever fails in it and however the connection was left before, is all or
-- nothing: a call that returns has committed all of its body on an open connection; a call that raises
-- has left the tables alone, but where the commit itself took effect and was reported as failed, and
-- has not left the connection in an aborted transaction.
pub cursor-IsAtomic :
    {A : Type 0} (fault : Fault) (body : Tables → Result (Tables × A)) (db : Database)
    → IsAtomic fault body db (cursor fault body db)
unfolding cursor connect
cursor-IsAtomic fault body db = opened-IsAtomic fault body db db.handle refl

-- On an open connection, after a body that raised and a rollback that worked, the tables and the
-- connection are as before: the connection is not dropped.
pub cursor_keeps_connection :
    {A : Type 0} (body : Tables → Result (Tables × A)) (db : Database) {e : Exception}
    → db.handle ≡ live
    → body db.tables ≡ err e
    → cursor no_fault body db ≡ (err e, db)
unfolding cursor connect roll_back
cursor_keeps_connection body db h e = rw (h, e) refl
