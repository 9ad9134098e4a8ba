-- ===== src/Pipeline/Dbt/Counted.antt =====
-- How the results of a run of dbt are counted.
use mathlib.Core.Path.{subst}
use crypto_analytics_platfor.Pipeline.Health.{or_zero}
use crypto_analytics_platfor.Base.{
  ℕ, suc, ◌+◌, ◌≤◌, ◌≡◌, refl, ap, String, Bool, true, false, List, [], ◌∷◌, ◌++◌, Option, none,
  some, length, length-append, All, All-append, arith, if◌then◌else◌,
}
use crypto_analytics_platfor.Base.Result.{Result, ok, err, bind_elim, ok-injective}
use crypto_analytics_platfor.Base.Strings.{starts_with}
use crypto_analytics_platfor.Datetime.{Datetime}
use crypto_analytics_platfor.Json.{Json, null, bool, int, float, array, object, str, int_of}
use crypto_analytics_platfor.Json.Access.{get_or}
use crypto_analytics_platfor.Pipeline.{Platform, TestRow, Task, ◌>>=◌, clock, lift}
use crypto_analytics_platfor.Pipeline.Dbt.{
  Counts, bump, test_id, test_row, row_of, status_of, read_result, read_results, no_counts, Stats,
  stats_of, insert_rows, results_of, publish, publish_dbt_results,
}

abbrev pub total : Counts → ℕ
total c = c.passes + c.fails + c.errors + c.skips + c.others

total-bump : (status : String) (c : Counts) → total (bump status c) ≡ suc (total c)
unfolding bump
total-bump status c = ground arith

-- A task that returned, taken apart.
task_elim {ℓ} :
    {S A B : Type 0} {P : Type ℓ} (m : Task S A) (f : A → Task S B) (s : S) {b : B} {t : S}
    → (m >>= f) s ≡ (ok b, t)
    → ((a : A) (s' : S) → m s ≡ (ok a, s') → f a s' ≡ (ok b, t) → P)
    → P
unfolding ◌>>=◌
task_elim {S = S} {A = A} {B = B} {P = P} m f s {b = b} {t = t} h k =
    go (m s) (λ a s' e. k a s' e) h
  where
    go :
        (r : Result A × S)
        → ((a : A) (s' : S) → r ≡ (ok a, s') → f a s' ≡ (ok b, t) → P)
        → elim r.0 [ ok a ↦ f a r.1 | err e ↦ (err e, r.1) ] ≡ (ok b, t)
        → P
    go (ok a, s') k h = k a s' refl h
    go (err e, s') k h = absurd cc

some-injective : (s t : String) → some s ≡ some t → s ≡ t
some-injective s t h = cc

test_id-some :
    (node_id : Json) (s : String) → test_id node_id ≡ ok (some s) → starts_with s "test." ≡ true
unfolding test_id
test_id-some (str t) s h = go (starts_with t "test.") refl (ok-injective _ _ h)
  where
    go :
        (b : Bool)
        → starts_with t "test." ≡ b
        → (if b then some t else none) ≡ some s
        → starts_with s "test." ≡ true
    go true e g = subst (λ u. starts_with u "test." ≡ true) (some-injective t s g) e
    go false e g = absurd cc
test_id-some null s h = absurd cc
test_id-some (bool b) s h = absurd cc
test_id-some (int n) s h = absurd cc
test_id-some (float x) s h = absurd cc
test_id-some (array xs) s h = absurd cc
test_id-some (object fs) s h = absurd cc

module _ (P : Platform) (run_id : String) (at : Datetime) where
  open P use {State, Float}

  -- A row of a test: its node is one, and it bears the run and its time.
  pub record IsTest (r : TestRow Float) : Type 0 where
    pub of_test : starts_with r.node_id "test." ≡ true
    pub of_run : r.run_id ≡ run_id
    pub at_time : r.invocation_at ≡ at

  test_row-IsTest :
      (result : Json) (status node_id : String) {rows : List (TestRow Float)}
      → starts_with node_id "test." ≡ true
      → test_row P run_id at result status node_id ≡ ok rows
      → All IsTest rows × (length rows ≤ 1)
  unfolding test_row
  test_row-IsTest result status node_id t h =
      bind_elim (get_or result "failures" null) _ h λ failures e1 h1.
        bind_elim (int_of (or_zero failures)) _ h1 λ count e2 h2.
          bind_elim (get_or result "execution_time" null) _ h2 λ time e3 h3.
            bind_elim (P.millis time) _ h3 λ execution_ms e4 h4.
              subst (λ rows. All IsTest rows × (length rows ≤ 1)) (ok-injective _ _ h4)
                ((record { of_test = t; of_run = refl; at_time = refl }, tt), omega arith)

  row_of-IsTest :
      (result : Json) (status : String) (node_id : Json) (test : Option String)
      {rows : List (TestRow Float)}
      → test_id node_id ≡ ok test
      → row_of P run_id at result status test ≡ ok rows
      → All IsTest rows × (length rows ≤ 1)
  row_of-IsTest result status node_id none e h =
      subst (λ rows. All IsTest rows × (length rows ≤ 1)) (ok-injective _ _ h) (tt, omega arith)
  row_of-IsTest result status node_id (some s) e h =
      test_row-IsTest result status s (test_id-some node_id s e) h

  read_result-IsTest :
      (result : Json) {read : String × List (TestRow Float)}
      → read_result P run_id at result ≡ ok read
      → All IsTest read.1 × (length read.1 ≤ 1)
  unfolding read_result
  read_result-IsTest result h = bind_elim (get_or result "unique_id" (str "")) _ h λ node_id e1 h1.
      bind_elim (get_or result "status" (str "unknown")) _ h1 λ status e2 h2.
        bind_elim (test_id node_id) _ h2 λ test e3 h3.
          bind_elim (row_of P run_id at result (status_of P run_id at status) test) _ h3
            λ rows e4 h4.
              subst (λ read. All IsTest read.1 × (length read.1 ≤ 1)) (ok-injective _ _ h4)
                (row_of-IsTest result _ node_id test e3 e4)

  -- What the loop has counted and gathered, from what it began with.
  pub record IsCounted (n : ℕ) (c d : Counts) (rows more : List (TestRow Float)) : Type 0 where
    pub counted : total d ≡ total c + n
    pub tests : All IsTest more
    pub bounded : length more ≤ length rows + n

  read_results-IsCounted :
      (results : List Json) (c : Counts) (rows : List (TestRow Float))
      {read : Counts × List (TestRow Float)}
      → All IsTest rows
      → read_results P run_id at results c rows ≡ ok read
      → IsCounted (length results) c read.0 rows read.1
  unfolding read_results
  read_results-IsCounted [] c rows all h =
      subst (λ read. IsCounted 0 c read.0 rows read.1) (ok-injective _ _ h)
        (record { counted = omega arith; tests = all; bounded = omega arith })
  read_results-IsCounted (result ∷ results) c rows {read = read} all h =
      bind_elim (read_result P run_id at result) _ h λ one e h'.
        later one (read_result-IsTest result e) (
          read_results-IsCounted results (bump one.0 c) (rows ++ one.1)
            (All-append IsTest rows one.1 all (read_result-IsTest result e).0) h')
    where
      later :
          (one : String × List (TestRow Float))
          → All IsTest one.1 × (length one.1 ≤ 1)
          → IsCounted (length results) (bump one.0 c) read.0 (rows ++ one.1) read.1
          → IsCounted (suc (length results)) c read.0 rows read.1
      later one (tests, bound) i = record {
        counted = omega (arith, total-bump one.0 c, i.counted);
        tests = i.tests;
        bounded = omega (arith, length-append rows one.1, i.bounded);
      }

module _ (P : Platform) (run_id : String) where
  open P use {State, Float}

  -- What a publication says: each result of the file is under exactly one status, and the rows that are
  -- published are those of tests, of this run and at its time.
  pub record IsPublished (payload : Json) (stats : Stats) : Type 0 where
    pub results : List Json
    pub listed : results_of payload ≡ ok results
    pub counts : Counts
    pub at : Datetime
    pub rows : List (TestRow Float)
    pub says : stats ≡ stats_of (length rows) counts
    pub counted : total counts ≡ length results
    pub tests : All (IsTest P run_id at) rows
    pub bounded : length rows ≤ length results

  published :
      (payload : Json) (at : Datetime) (results : List Json) (read : Counts × List (TestRow Float))
      → results_of payload ≡ ok results
      → IsCounted P run_id at (length results) no_counts read.0 [] read.1
      → IsPublished payload (stats_of (length read.1) read.0)
  published payload at results read e i = record {
    results = results;
    listed = e;
    counts = read.0;
    at = at;
    rows = read.1;
    says = refl;
    counted = omega (arith, i.counted);
    tests = i.tests;
    bounded = omega (arith, i.bounded);
  }

  -- A publication that returns has counted every result of the file, each under one status, and has
  -- published a row for no more than the results, each of a test.
  pub publish_dbt_results-IsPublished :
      (payload : Json) (s t : State) {stats : Stats}
      → publish_dbt_results P run_id (some payload) s ≡ (ok stats, t)
      → IsPublished payload stats
  unfolding publish_dbt_results publish
  publish_dbt_results-IsPublished payload s t h = task_elim (clock P) _ s h λ at s1 e1 h1.
      task_elim (lift (results_of payload)) _ s1 h1 λ results s2 e2 h2.
        task_elim (lift (read_results P run_id at results no_counts [])) _ s2 h2 λ read s3 e3 h3.
          task_elim (insert_rows P run_id read.1) _ s3 h3 λ u s4 e4 h4.
            subst (IsPublished payload) (ok-injective _ _ (ap (λ p. p.0) h4)) (
              published payload at results read (ap (λ p. p.0) e2)
                (read_results-IsCounted P run_id at results no_counts [] tt (ap (λ p. p.0) e3)))
