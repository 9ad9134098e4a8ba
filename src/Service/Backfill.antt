-- ===== src/Service/Backfill.antt =====
-- `run_backfill` of ingestion/service.py: one pass over the symbols without a fallback, which the
-- scheduled catch-up calls.
use crypto_analytics_platfor.Base.{
  ℕ, ◌≡◌, refl, String, Bool, true, false, ◌||◌, List, [], ◌∷◌, Option, none, some, arith,
  if◌then◌else◌, All,
}
use crypto_analytics_platfor.Base.Result.{Result, ok, err}
use crypto_analytics_platfor.Base.Texts.{str_eq, str_eq_iff}
use crypto_analytics_platfor.Db.{Driver}
use crypto_analytics_platfor.Db.Connection
use crypto_analytics_platfor.Db.Connection.{Database, absent, ensure_symbol}
use crypto_analytics_platfor.Db.Symbol.{split_symbol}
use crypto_analytics_platfor.Environment.{Environment}
use crypto_analytics_platfor.Service.{CandleSources, Config, Service, Action, ◌>>=◌, ◌>>◌, pure}
use crypto_analytics_platfor.Service.Rules.{Ensures, bind-Ensures, any-Ensures, Ensures-mono}
use crypto_analytics_platfor.Service.Window.{on_db, next_fault, pending_window, ingest_window}

-- `minutes if minutes is not None else config.backfill_minutes`
unfoldable pub budget_of : Option ℕ → ℕ → ℕ
budget_of none configured = configured
budget_of (some minutes) configured = minutes

-- The dictionary of the rows written, in the order of the first insertions.
abbrev pub Summary : Type 0
Summary = List (String × ℕ)

-- `summary[symbol] = written`
unfoldable pub insert : String → ℕ → Summary → Summary
insert symbol n [] = (symbol, n) ∷ []
insert symbol n ((key, m) ∷ rest) =
    if str_eq key symbol then (key, n) ∷ rest else (key, m) ∷ insert symbol n rest

unfoldable pub has_key : String → Summary → Bool
has_key symbol [] = false
has_key symbol ((key, m) ∷ rest) = str_eq key symbol || has_key symbol rest

module _ (E : Environment) (K : CandleSources E.State) (c : Config) (D : Driver) where
  open E use {State}
  open K use {Source}

  unfoldable pub register : String → Action State Source (Unit {0})
  unfolding next_fault ensure_symbol split_symbol
  register symbol = do
    fault ← next_fault E K
    on_db E K (ensure_symbol fault symbol (split_symbol symbol).0 (split_symbol symbol).1)

  unfoldable pub backfill_symbol : ℕ → String → Action State Source ℕ
  unfolding register pending_window ingest_window
  backfill_symbol budget symbol = do
    register symbol
    window ← pending_window E K symbol budget
    ingest_window E K D symbol window.0 window.1

  -- The loop. An exception leaves it at the symbol that raised.
  unfoldable pub backfill_symbols : ℕ → List String → Summary → Action State Source Summary
  unfolding backfill_symbol insert
  backfill_symbols budget [] summary = pure summary
  backfill_symbols budget (symbol ∷ symbols) summary = do
    written ← backfill_symbol budget symbol
    backfill_symbols budget symbols (insert symbol written summary)

  -- `finally: source.close(); db.close()`
  unfoldable pub release : Service State Source → Service State Source
  unfolding Connection.close
  release s = record s { world = K.close s.source s.world; db = Connection.close s.db }

  -- From its `budget` and its `try` on, on a state with a new Database, the configured source and no
  -- fallback.
  unfoldable pub run_backfill : Option ℕ → Action State Source Summary
  unfolding backfill_symbols release budget_of
  run_backfill minutes s =
      let (r, s') = backfill_symbols (budget_of minutes c.backfill_minutes) c.symbols [] s in
      (r, release s')

  insert_holds :
      (symbol : String) (n : ℕ) (summary : Summary)
      → has_key symbol (insert symbol n summary) ≡ true
  unfolding insert has_key
  insert_holds symbol n [] = ground (arith, str_eq_iff symbol symbol)
  insert_holds symbol n ((key, m) ∷ rest) = ground (arith, insert_holds symbol n rest)

  insert_keeps :
      (symbol other : String) (n : ℕ) (summary : Summary)
      → has_key other summary ≡ true
      → has_key other (insert symbol n summary) ≡ true
  unfolding insert has_key
  insert_keeps symbol other n [] h = cc
  insert_keeps symbol other n ((key, m) ∷ rest) h = ground (arith, insert_keeps symbol other n rest)

  -- The summary has the keys it had, and the symbols of the list.
  Covers : List String → Summary → Summary → Type 0
  Covers symbols before after =
      All (λ symbol. has_key symbol after ≡ true) symbols
      × ((other : String) → has_key other before ≡ true → has_key other after ≡ true)

  insert-Covers :
      (symbol : String) (symbols : List String) (n : ℕ) (summary after : Summary)
      → Covers symbols (insert symbol n summary) after
      → Covers (symbol ∷ symbols) summary after
  unfolding Covers
  insert-Covers symbol symbols n summary after (all, kept) = (
    (kept symbol (insert_holds symbol n summary), all),
    λ other h. kept other (insert_keeps symbol other n summary h),
  )

  backfill_symbols-Covers :
      (budget : ℕ) (symbols : List String) (summary : Summary) (s : Service State Source)
      → Ensures
          (λ after s'. Covers symbols summary after)
          (backfill_symbols budget symbols summary s)
  unfolding backfill_symbols Covers
  backfill_symbols-Covers budget [] summary s = (tt, λ other h. h)
  backfill_symbols-Covers budget (symbol ∷ symbols) summary s =
      bind-Ensures (λ n s'. Unit {0}) (λ after s'. Covers (symbol ∷ symbols) summary after)
        (backfill_symbol budget symbol) _ s (any-Ensures (backfill_symbol budget symbol s))
        λ n s' _.
          Ensures-mono (λ after t. Covers symbols (insert symbol n summary) after)
            (λ after t. Covers (symbol ∷ symbols) summary after)
            (backfill_symbols budget symbols (insert symbol n summary) s')
            (λ after t h. insert-Covers symbol symbols n summary after h)
            (backfill_symbols-Covers budget symbols (insert symbol n summary) s')

  released :
      (P : Summary → Type 0) (r : Result Summary × Service State Source)
      → Ensures (λ after s'. P after) r
      → Ensures (λ after s'. P after × (s'.db.handle ≡ absent)) (r.0, release r.1)
  unfolding release Connection.close
  released P (ok after, s) h = (h, refl)
  released P (err e, s) h = tt

  -- Whatever the exchange, the database and the clock do: if `run_backfill` returns, its summary has an
  -- entry for every configured symbol, and the connection is closed.
  pub run_backfill-Ensures :
      (minutes : Option ℕ) (s : Service State Source)
      → Ensures
          (λ after s'.
            All (λ symbol. has_key symbol after ≡ true) c.symbols × (s'.db.handle ≡ absent))
          (run_backfill minutes s)
  unfolding run_backfill Covers
  run_backfill-Ensures minutes s =
      let budget = budget_of minutes c.backfill_minutes in
      released (λ after. All (λ symbol. has_key symbol after ≡ true) c.symbols)
        (backfill_symbols budget c.symbols [] s)
        (Ensures-mono (λ after t. Covers c.symbols [] after)
          (λ after t. All (λ symbol. has_key symbol after ≡ true) c.symbols)
          (backfill_symbols budget c.symbols [] s) (λ after t h. h.0)
          (backfill_symbols-Covers budget c.symbols [] s))
