-- ===== src/Exporter/Frame.antt =====
-- What a collector leaves alone: the gauge of the targets and the counter of the errors are its guard's.
pub mod Collectors
use mathlib.Core.Path.{subst}
use crypto_analytics_platfor.Base.{
  ℕ, ◌==◌, ◌&&◌, leb, ltb, ◌≡◌, refl, sym, ap, ◌∙◌, String, Bool, true, false, List, [], ◌∷◌,
  Option, none, some, arith, Bool-cases, inl, inr, if◌then◌else◌,
}
use crypto_analytics_platfor.Base.Int.{ℤ}
use crypto_analytics_platfor.Base.Texts.{str_eq, str_eq_iff}
use crypto_analytics_platfor.Json.{Json}
use crypto_analytics_platfor.Exporter.{
  Gauge, index, target_up, Failure, http_error, other, Outcome, done, raised, Answer, Targets,
  Exporter, Collect, ◌>>=◌, ◌>>◌, pure, lift, call, set, clear, changed, put, lookup, same_labels,
  Series, guarded, concluded, ch_query, to_float, table_of,
}
use crypto_analytics_platfor.Pipeline.Health.{connector_state}
use crypto_analytics_platfor.Exporter.Collect.{
  cell, pair, triple, of_result, each, set_unless_negative, set_read, set_slot, collect_postgres,
  set_landing, with_first, set_total, set_parity, compare_rows, set_dead_letters, set_mart,
  forgiven, query_if_there, scrape_mart, marts, set_parts, set_tests, collect_landing,
  collect_marts, collect_clickhouse,
}
use crypto_analytics_platfor.Exporter.Connect.{
  listed_tasks, count_states, set_tasks, read_status, read_document, read_answer, collect_connect,
  scrape_once,
}

-- The two things that a collector leaves to its guard.
pub record Leaves {S F : Type 0} (s t : Exporter S F) : Type 0 where
  pub up : t.gauges target_up ≡ s.gauges target_up
  pub errors : t.errors ≡ s.errors

abbrev pub IsModest : {S F A : Type 0} → Collect S F A → Type 0
IsModest {S = S} {F = F} m = (s : Exporter S F) → Leaves s (m s).1

module _ {S F : Type 0} where
  Leaves-trans : (s t u : Exporter S F) → Leaves s t → Leaves t u → Leaves s u
  Leaves-trans s t u a b = record { up = b.up ∙ a.up; errors = b.errors ∙ a.errors }

  pub same : (s : Exporter S F) → Leaves s s
  same s = record { up = refl; errors = refl }

  pub bind-IsModest :
      {A B : Type 0} (m : Collect S F A) (f : A → Collect S F B)
      → IsModest m
      → ((a : A) → IsModest (f a))
      → IsModest (m >>= f)
  unfolding ◌>>=◌
  bind-IsModest {A = A} {B = B} m f h k s = go (m s) (h s)
    where
      go :
          (r : Outcome A × Exporter S F)
          → Leaves s r.1
          → Leaves s
              (elim r.0 as (λ o. Outcome B × Exporter S F) [
                | done a ↦ f a r.1
                | raised e ↦ (raised e, r.1)
              ]).1
      go (done a, t) l = Leaves-trans s t _ l (k a t)
      go (raised e, t) l = l

  pub call-IsModest : {A : Type 0} (f : S → Outcome A × S) → IsModest {S = S} {F = F} (call f)
  unfolding call
  call-IsModest f s = record { up = refl; errors = refl }

  pub set-IsModest :
      (g : Gauge) (ls : List String) (v : F)
      → index g == 15 ≡ false
      → IsModest {S = S} {F = F} (set g ls v)
  unfolding set
  set-IsModest g ls v h s = record { up = rw h refl; errors = refl }

  pub clear-IsModest : (g : Gauge) → index g == 15 ≡ false → IsModest {S = S} {F = F} (clear g)
  unfolding clear
  clear-IsModest g h s = record { up = rw h refl; errors = refl }
