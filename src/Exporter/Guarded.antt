-- ===== src/Exporter/Guarded.antt =====
-- What a scrape reports of each system.
use mathlib.Core.Path.{subst}
use crypto_analytics_platfor.Base.{
  ◌≡◌, refl, sym, ap, ◌∙◌, String, true, false, List, [], ◌∷◌, Option, some, arith, Bool-cases, inl,
  inr,
}
use crypto_analytics_platfor.Base.Int.{ℤ}
use crypto_analytics_platfor.Base.Texts.{str_eq, str_eq_iff}
use crypto_analytics_platfor.Exporter.{
  target_up, Outcome, done, raised, Targets, Exporter, Collect, put, lookup, same_labels, Series,
  guarded, concluded,
}
use crypto_analytics_platfor.Exporter.Collect.{collect_postgres, collect_clickhouse}
use crypto_analytics_platfor.Exporter.Connect.{collect_connect, scrape_once}
use crypto_analytics_platfor.Exporter.Frame.{Leaves}
use crypto_analytics_platfor.Exporter.Frame.Collectors.{
  collect_postgres-IsModest, collect_clickhouse-IsModest, collect_connect-IsModest,
}

same_labels_refl : (ls : List String) → same_labels ls ls ≡ true
same_labels_refl [] = refl
same_labels_refl (l ∷ ls) = ground (arith, str_eq_iff l l, same_labels_refl ls)

same_labels_eq : (ks ls : List String) → same_labels ks ls ≡ true → ks ≡ ls
same_labels_eq [] [] h = refl
same_labels_eq [] (l ∷ ls) h = absurd cc
same_labels_eq (k ∷ ks) [] h = absurd cc
same_labels_eq (k ∷ ks) (l ∷ ls) h = λ i. first i ∷ same_labels_eq ks ls rest i
  where
    first : k ≡ l
    first = ground (arith, str_eq_iff k l)

    rest : same_labels ks ls ≡ true
    rest = ground arith

module _ {F : Type 0} where
  lookup-put : (ls : List String) (v : F) (series : Series F) → lookup ls (put ls v series) ≡ some v
  unfolding lookup put
  lookup-put ls v [] = rw (same_labels_refl ls) refl
  lookup-put ls v ((ks, w) ∷ rest) = elim (Bool-cases (same_labels ks ls)) [
    | inl e ↦ rw (e, e) refl
    | inr e ↦ rw (e, e) (lookup-put ls v rest)
  ]

  lookup-put_other :
      (ls ks : List String) (v : F) (series : Series F)
      → same_labels ls ks ≡ false
      → lookup ks (put ls v series) ≡ lookup ks series
  unfolding lookup put
  lookup-put_other ls ks v [] h = rw h refl
  lookup-put_other ls ks v ((js, w) ∷ rest) h = elim (Bool-cases (same_labels js ls)) [
    | inl e ↦ rw (e, subst (λ js. same_labels js ks ≡ false) (sym (same_labels_eq js ls e)) h) refl
    | inr e ↦ rw (e, lookup-put_other ls ks v rest h) refl
  ]

abbrev up : {S F : Type 0} → String → Exporter S F → Option F
up target s = lookup (target ∷ []) (s.gauges target_up)

module _ (T : Targets) where
  open T use {State, Float}

  -- What the gauge says of a collector that ended so, and what its counter has then.
  abbrev pub shown_as : {A : Type 0} → Outcome A → Float
  shown_as (done a) = T.one
  shown_as (raised e) = T.zero

  abbrev pub counted_in : {A : Type 0} → String → Outcome A → List String → List String
  counted_in target (done a) errors = errors
  counted_in target (raised e) errors = target ∷ errors

  -- A guarded collector: its own target is shown as it ended, the others as they were.
  record IsGuarded (target : String) {A : Type 0} (o : Outcome A) (s t : Exporter State Float)
      : Type 0 where
    pub own : up target t ≡ some (shown_as o)
    pub others : (k : String) → same_labels (target ∷ []) (k ∷ []) ≡ false → up k t ≡ up k s
    pub errors : t.errors ≡ counted_in target o s.errors

  guarded-IsGuarded :
      {A : Type 0} (target : String) (m : Collect State Float A) (s : Exporter State Float)
      → Leaves s (m s).1
      → IsGuarded target (m s).0 s (guarded T target m s).1
  unfolding guarded
  guarded-IsGuarded {A = A} target m s l = go (m s) l
    where
      go :
          (r : Outcome A × Exporter State Float)
          → Leaves s r.1
          → IsGuarded target r.0 s (concluded T target r).1
      go (done a, t) l = record {
        own = lookup-put (target ∷ []) T.one _;
        others =
            λ k h. lookup-put_other (target ∷ []) (k ∷ []) T.one _ h ∙ ap (lookup (k ∷ [])) l.up;
        errors = l.errors;
      }
      go (raised e, t) l = record {
        own = lookup-put (target ∷ []) T.zero _;
        others =
            λ k h. lookup-put_other (target ∷ []) (k ∷ []) T.zero _ h ∙ ap (lookup (k ∷ [])) l.up;
        errors = ap (λ errors. target ∷ errors) l.errors;
      }

  module _ (connector : String) (s : Exporter State Float) where
    -- The exporter between the collectors.
    abbrev pub after_postgres : Option ℤ × Exporter State Float
    after_postgres = guarded T "postgres" (collect_postgres T) s

    abbrev pub after_clickhouse : Exporter State Float
    after_clickhouse =
        (guarded T "clickhouse" (collect_clickhouse T after_postgres.0) after_postgres.1).1

    -- A scrape reports each of the three systems as its own collector ended.
    pub record IsReported (t : Exporter State Float) : Type 0 where
      pub postgres : up "postgres" t ≡ some (shown_as (collect_postgres T s).0)
      pub clickhouse :
          up "clickhouse" t
          ≡ some (shown_as (collect_clickhouse T after_postgres.0 after_postgres.1).0)
      pub connect :
          up "kafka-connect" t ≡ some (shown_as (collect_connect T connector after_clickhouse).0)
      pub errors :
          t.errors
          ≡ counted_in "kafka-connect" (collect_connect T connector after_clickhouse).0 (
              counted_in "clickhouse"
                (collect_clickhouse T after_postgres.0 after_postgres.1).0
                (counted_in "postgres" (collect_postgres T s).0 s.errors))

    -- Every scrape asks all three systems, whichever of them fails. After it the gauge of each target is
    -- one exactly where its own collector came to its end, and zero where it raised, and the errors that
    -- are counted are those of the collectors that raised.
    pub scrape_once-IsReported : IsReported (scrape_once T connector s)
    unfolding scrape_once str_eq
    scrape_once-IsReported =
        let p =
          guarded-IsGuarded "postgres" (collect_postgres T) s (collect_postgres-IsModest T s) in
        let c =
          guarded-IsGuarded "clickhouse" (collect_clickhouse T after_postgres.0) after_postgres.1
            (collect_clickhouse-IsModest T after_postgres.0 after_postgres.1) in
        let k =
          guarded-IsGuarded "kafka-connect" (collect_connect T connector) after_clickhouse
            (collect_connect-IsModest T connector after_clickhouse) in
        record {
          postgres = k.others "postgres" refl ∙ c.others "postgres" refl ∙ p.own;
          clickhouse = k.others "clickhouse" refl ∙ c.own;
          connect = k.own;
          errors =
              k.errors
              ∙ ap (counted_in "kafka-connect" (collect_connect T connector after_clickhouse).0) (
                  c.errors
                  ∙ ap
                      (counted_in "clickhouse"
                        (collect_clickhouse T after_postgres.0 after_postgres.1).0)
                      p.errors);
        }
