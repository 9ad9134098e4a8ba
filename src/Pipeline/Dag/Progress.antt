-- ===== src/Pipeline/Dag/Progress.antt =====
-- A run of the DAG never gets stuck.
use crypto_analytics_platfor.Base.{
  ℕ, zero, suc, ◌≡◌, refl, ◌<◌, ◌⊎◌, inl, inr, true, false, List, [], ◌∷◌, All, Bool-cases, map,
  arith,
}
use crypto_analytics_platfor.Base.Int.{ℤ}
use crypto_analytics_platfor.Pipeline.{Platform}
use crypto_analytics_platfor.Pipeline.Dag.{
  TaskId, TriggerRule, all_success, all_done, trigger_rule, upstream, number, Status, waiting,
  running, up_for_retry, success, failed, upstream_failed, is_done, is_broken, RunState, Any,
  Outside, Scheduler, Step, begin, abandon, fail, again,
}
use crypto_analytics_platfor.Pipeline.Dag.Gated.{upstream_earlier, picked}

-- All of the tasks are done, or one is not.
done_or_open :
    (s : RunState) (us : List TaskId)
    → All (λ u. is_done (s u) ≡ true) us ⊎ Any (λ u. is_done (s u) ≡ false) us
done_or_open s [] = inl tt
done_or_open s (u ∷ us) = elim (Bool-cases (is_done (s u))) [
  | inl d ↦ elim (done_or_open s us) [ inl ds ↦ inl (d, ds) | inr o ↦ inr (inr o) ]
  | inr o ↦ inr (inl o)
]

-- Of tasks that are done, all have succeeded, or one is broken.
success_or_broken :
    (s : RunState) (us : List TaskId)
    → All (λ u. is_done (s u) ≡ true) us
    → All (λ x. x ≡ success) (map s us) ⊎ Any (λ x. is_broken x ≡ true) (map s us)
success_or_broken s [] h = inl tt
success_or_broken s (u ∷ us) (d, h) = elim (sorted (s u) d) [
  | inl e ↦ elim (success_or_broken s us h) [ inl es ↦ inl (e, es) | inr b ↦ inr (inr b) ]
  | inr b ↦ inr (inl b)
]
  where
    sorted : (x : Status) → is_done x ≡ true → (x ≡ success) ⊎ (is_broken x ≡ true)
    sorted success h = inl refl
    sorted failed h = inr refl
    sorted upstream_failed h = inr refl
    sorted waiting h = absurd cc
    sorted running h = absurd cc
    sorted up_for_retry h = absurd cc

done_map :
    (s : RunState) (us : List TaskId)
    → All (λ u. is_done (s u) ≡ true) us
    → All (λ x. is_done x ≡ true) (map s us)
done_map s [] h = tt
done_map s (u ∷ us) h = (h.0, done_map s us h.1)

open_cases : (x : Status) → is_done x ≡ false → (x ≡ waiting) ⊎ (x ≡ running) ⊎ (x ≡ up_for_retry)
open_cases waiting h = inl refl
open_cases running h = inr (inl refl)
open_cases up_for_retry h = inr (inr refl)
open_cases success h = absurd cc
open_cases failed h = absurd cc
open_cases upstream_failed h = absurd cc

module _ (A : Scheduler) (P : Platform) (sla : ℤ) (w : Outside P) where
  abbrev pub Moves : RunState → Type 0
  Moves s = (s' : RunState) × Step A P sla w s s'

  -- The scheduler moves a task that waits for tasks that are done.
  scheduled :
      (s : RunState) (t : TaskId) (r : TriggerRule)
      → trigger_rule t ≡ r
      → s t ≡ waiting
      → All (λ u. is_done (s u) ≡ true) (upstream t)
      → Moves s
  scheduled s t all_success e o h = elim (success_or_broken s (upstream t) h) [
    | inl ready ↦ (_, begin t o (rw e ((A.all_success_lem (map s (upstream t))).1 ready)))
    | inr doomed ↦ (_, abandon t o (rw e ((A.give_up_lem (map s (upstream t))).1 doomed)))
  ]
  scheduled s t all_done e o h =
      (_, begin t o (rw e ((A.all_done_lem (map s (upstream t))).1 (done_map s (upstream t) h))))

  moved_of :
      (s : RunState) (t : TaskId)
      → is_done (s t) ≡ false
      → All (λ u. is_done (s u) ≡ true) (upstream t)
      → Moves s
  moved_of s t o h = elim (open_cases (s t) o) [
    | inl e ↦ scheduled s t (trigger_rule t) refl e h
    | inr (inl r) ↦ (_, fail t r)
    | inr (inr r) ↦ (_, again t r)
  ]

  descend : (s : RunState) (n : ℕ) (t : TaskId) → number t < n → is_done (s t) ≡ false → Moves s
  descend s zero t h o = absurd (omega arith)
  descend s (suc n) t h o = elim (done_or_open s (upstream t)) [
    | inl done ↦ moved_of s t o done
    | inr any ↦
        let (u, earlier, o') =
          picked (λ u. number u < number t) (λ u. is_done (s u) ≡ false) (upstream t)
            (upstream_earlier t) any in
        descend s n u (omega arith) o'
  ]

  -- As long as some task of the run is not done, whatever is outside, the run can move: the wiring and the trigger rules
  -- never leave it stuck.
  pub run-Moves : (s : RunState) (t : TaskId) → is_done (s t) ≡ false → Moves s
  run-Moves s t o = descend s (suc (number t)) t (omega arith) o
