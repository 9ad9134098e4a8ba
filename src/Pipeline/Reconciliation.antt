-- ===== src/Pipeline/Reconciliation.antt =====
-- airflow/dags/cdc_reconciliation.py: the counts of both sides, day by day, and their comparison.
pub mod Judged
use crypto_analytics_platfor.Base.{
  ℕ, ◌+◌, ◌≡◌, String, Bool, true, false, not, ◌&&◌, List, [], ◌∷◌, ◌++◌, map, pos, length,
  if◌then◌else◌, ltb, ◌==◌,
}
use crypto_analytics_platfor.Base.Int.{ℤ, ◌-ℤ◌, pos_part, neg_part, ltb_ℤ}
use crypto_analytics_platfor.Base.Result.{Result, ok, err}
use crypto_analytics_platfor.Base.Texts.{codes, str_eq}

-- A symbol and a day, as it is printed.
pub record Key : Type 0 where
  pub symbol : String
  pub day : String

-- A row of either query, its day printed and its count read.
pub record CountRow : Type 0 where
  pub key : Key
  pub count : ℕ

-- The dictionary of a side.
abbrev pub Counts : Type 0
Counts = List (Key × ℕ)

unfoldable pub same : Key → Key → Bool
unfolding str_eq
same k l = str_eq k.symbol l.symbol && str_eq k.day l.day

unfoldable pub set_count : Key → ℕ → Counts → Counts
unfolding same
set_count k n [] = (k, n) ∷ []
set_count k n ((l, m) ∷ rest) =
    let later = set_count k n rest in if same l k then (l, n) ∷ rest else (l, m) ∷ later

-- The dictionary comprehension over the rows, behind what is already in it.
unfoldable pub counts_of : List CountRow → Counts → Counts
unfolding set_count
counts_of [] counts = counts
counts_of (row ∷ rows) counts = counts_of rows (set_count row.key row.count counts)

-- `counts.get(key, 0)`
unfoldable pub count : Key → Counts → ℕ
unfolding same
count k [] = 0
count k ((l, n) ∷ rest) = let later = count k rest in if same l k then n else later

abbrev pub key_list : Counts → List Key
key_list [] = []
key_list ((k, n) ∷ rest) = k ∷ key_list rest

abbrev pub lower_codes : List ℕ → List ℕ → Bool
lower_codes cs [] = false
lower_codes [] (d ∷ ds) = true
lower_codes (c ∷ cs) (d ∷ ds) = let later = lower_codes cs ds in if c == d then later else ltb c d

-- The order of the pairs, on their code points.
unfoldable pub before : Key → Key → Bool
unfolding str_eq
before k l =
    if str_eq k.symbol l.symbol
    then lower_codes (codes k.day) (codes l.day)
    else lower_codes (codes k.symbol) (codes l.symbol)

-- A key among sorted ones; a key that is there already stays once.
unfoldable pub insert_key : Key → List Key → List Key
unfolding same before
insert_key k [] = k ∷ []
insert_key k (l ∷ ls) =
    let later = insert_key k ls in
    if same l k then l ∷ ls else if before k l then k ∷ (l ∷ ls) else l ∷ later

unfoldable pub insert_keys : List Key → List Key → List Key
unfolding insert_key
insert_keys [] sorted = sorted
insert_keys (k ∷ ks) sorted = insert_keys ks (insert_key k sorted)

-- `sorted(set(source) | set(replica))`
unfoldable pub all_keys : Counts → Counts → List Key
unfolding insert_keys
all_keys source replica = insert_keys (key_list source ++ key_list replica) []

pub record Divergence : Type 0 where
  pub symbol : String
  pub date : String
  pub postgres : ℕ
  pub clickhouse : ℕ
  pub difference : ℤ

-- What the loop over the keys has gathered.
pub record Tally : Type 0 where
  pub rows_source : ℕ
  pub rows_replica : ℕ
  pub divergences : List Divergence

pub record Reconciled : Type 0 where
  pub days_compared : ℕ
  pub rows_postgres : ℕ
  pub rows_clickhouse : ℕ
  pub divergences : ℕ

-- `diverged` is the RuntimeError, with the divergences that its text is made of.
pub data Verdict : Type 0 where
  passed : Reconciled → Verdict
  diverged : List Divergence → Verdict

-- `abs(in_source - in_replica)`
abbrev pub distance : ℕ → ℕ → ℤ
distance a b = let d = pos a -ℤ pos b in pos (pos_part d + neg_part d)

module _ (tolerance : ℤ) (today : String) (source replica : Counts) where
  -- What one key adds to the divergences. Today is in flight.
  unfoldable pub divergence_of : Key → List Divergence → List Divergence
  unfolding ◌-ℤ◌ str_eq count
  divergence_of k rest =
      if str_eq k.day today
      then rest
      else if ltb_ℤ tolerance (distance (count k source) (count k replica))
      then record {
        symbol = k.symbol;
        date = k.day;
        postgres = count k source;
        clickhouse = count k replica;
        difference = pos (count k source) -ℤ pos (count k replica);
      }
        ∷ rest
      else rest

  unfoldable pub tally : List Key → Tally
  unfolding divergence_of count
  tally [] = record { rows_source = 0; rows_replica = 0; divergences = [] }
  tally (k ∷ ks) =
      let rest = tally ks in
      record {
        rows_source = count k source + rest.rows_source;
        rows_replica = count k replica + rest.rows_replica;
        divergences = divergence_of k rest.divergences;
      }

  abbrev pub verdict_of : ℕ → ℕ → ℕ → List Divergence → Verdict
  verdict_of days rows_source rows_replica [] = passed (record {
    days_compared = days;
    rows_postgres = rows_source;
    rows_clickhouse = rows_replica;
    divergences = 0;
  })
  verdict_of days rows_source rows_replica (d ∷ ds) = diverged (d ∷ ds)

  -- `reconcile`, once both sides and the day have been read.
  unfoldable pub compare : Verdict
  unfolding tally all_keys
  compare =
      let ks = all_keys source replica in
      let t = tally ks in verdict_of (length ks) t.rows_source t.rows_replica t.divergences

-- The two queries and the clock. A query may raise.
pub record Sides : Type 1 where
  pub State : Type 0
  pub postgres_rows : State → Result (List CountRow) × State
  pub clickhouse_rows : State → Result (List CountRow) × State
  pub today : State → String × State

module _ (D : Sides) (tolerance : ℤ) where
  open D use {State}

  abbrev pub against : Counts → Result (List CountRow) × State → Result Verdict × State
  against source (err e, s) = (err e, s)
  against source (ok rows, s) =
      let (day, s') = D.today s in (ok (compare tolerance day source (counts_of rows [])), s')

  abbrev pub with_source : Result (List CountRow) × State → Result Verdict × State
  with_source (err e, s) = (err e, s)
  with_source (ok rows, s) = against (counts_of rows []) (D.clickhouse_rows s)

  unfoldable pub reconcile : State → Result Verdict × State
  unfolding compare counts_of
  reconcile s = with_source (D.postgres_rows s)
