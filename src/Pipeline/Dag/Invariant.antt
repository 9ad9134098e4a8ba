-- ===== src/Pipeline/Dag/Invariant.antt =====
-- What holds in every state that a run of the DAG can be in.
use mathlib.Core.Path.{subst}
use crypto_analytics_platfor.Base.{
  ℕ, zero, suc, ◌≡◌, refl, sym, ap, ◌∙◌, ◌⊎◌, inl, inr, true, false, List, [], ◌∷◌, ◌==◌, All,
  Bool-cases, map, arith,
}
use crypto_analytics_platfor.Base.Int.{ℤ}
use crypto_analytics_platfor.Pipeline.{Platform}
use crypto_analytics_platfor.Pipeline.Dag.{
  TaskId, start, check_cdc_connector, check_clickhouse, ingest, wait_for_cdc, dbt_deps,
  dbt_source_freshness, dbt_build_staging, dbt_build_marts, dbt_docs, dbt_results, record_run,
  finish, TriggerRule, all_success, all_done, trigger_rule, upstream, all_tasks, number, Status,
  waiting, running, up_for_retry, success, failed, upstream_failed, is_done, is_begun, is_broken,
  RunState, put_status, Any, Scheduler, Works, Outside, Visited, During, Step, begin, abandon,
  succeed, fail, retry, again, Reach, created, moved,
}

abbrev nth : List TaskId → ℕ → TaskId
nth [] n = finish
nth (t ∷ ts) zero = t
nth (t ∷ ts) (suc n) = nth ts n

abbrev task_at : ℕ → TaskId
task_at n = nth all_tasks n

task_at-number : (t : TaskId) → task_at (number t) ≡ t
unfolding number
task_at-number start = refl
task_at-number check_cdc_connector = refl
task_at-number check_clickhouse = refl
task_at-number ingest = refl
task_at-number wait_for_cdc = refl
task_at-number dbt_deps = refl
task_at-number dbt_source_freshness = refl
task_at-number dbt_build_staging = refl
task_at-number dbt_build_marts = refl
task_at-number dbt_docs = refl
task_at-number dbt_results = refl
task_at-number record_run = refl
task_at-number finish = refl

number-injective : (t u : TaskId) → number t ≡ number u → t ≡ u
number-injective t u e = sym (task_at-number t) ∙ ap task_at e ∙ task_at-number u

-- A change of one task's status: it is the task's, or the task is another one and keeps its own.
put_status-cases :
    (t : TaskId) (x : Status) (s : RunState) (u : TaskId)
    → ((t ≡ u) × (put_status t x s u ≡ x)) ⊎ (put_status t x s u ≡ s u)
put_status-cases t x s u = elim (Bool-cases (number t == number u)) [
  | inl e ↦ inl (number-injective t u (ground arith), rw e refl)
  | inr e ↦ inr (rw e refl)
]

-- A task that is done keeps its status when another one changes.
put_status-done :
    (t : TaskId) (x : Status) (s : RunState) (u : TaskId)
    → is_done (s t) ≡ false
    → is_done (s u) ≡ true
    → put_status t x s u ≡ s u
put_status-done t x s u h d = elim (put_status-cases t x s u) [
  | inl (e, f) ↦ absurd cc (rw (sym e) at d)
  | inr f ↦ f
]

All-map :
    {A B : Type 0} (P : B → Type 0) (f : A → B) (xs : List A)
    → All P (map f xs)
    → All (λ x. P (f x)) xs
All-map P f [] h = tt
All-map P f (x ∷ xs) h = (h.0, All-map P f xs h.1)

pub Any-map :
    {A B : Type 0} (P : B → Type 0) (f : A → B) (xs : List A)
    → Any P (map f xs)
    → Any (λ x. P (f x)) xs
Any-map P f [] h = absurd h
Any-map P f (x ∷ xs) (inl h) = inl h
Any-map P f (x ∷ xs) (inr h) = inr (Any-map P f xs h)

pub All-imp :
    {A : Type 0} (P Q : A → Type 0) (xs : List A) → ((x : A) → P x → Q x) → All P xs → All Q xs
All-imp P Q [] k h = tt
All-imp P Q (x ∷ xs) k h = (k x h.0, All-imp P Q xs k h.1)

Any-imp :
    {A : Type 0} (P Q : A → Type 0) (xs : List A) → ((x : A) → P x → Q x) → Any P xs → Any Q xs
Any-imp P Q [] k h = absurd h
Any-imp P Q (x ∷ xs) k (inl h) = inl (k x h)
Any-imp P Q (x ∷ xs) k (inr h) = inr (Any-imp P Q xs k h)

-- What a task that has been started found of the tasks before it.
abbrev pub Settled : RunState → TriggerRule → List TaskId → Type 0
Settled s all_success us = All (λ u. s u ≡ success) us
Settled s all_done us = All (λ u. is_done (s u) ≡ true) us

Settled-put_status :
    (t : TaskId) (x : Status) (s : RunState) (r : TriggerRule) (us : List TaskId)
    → is_done (s t) ≡ false
    → Settled s r us
    → Settled (put_status t x s) r us
Settled-put_status t x s all_success us h =
    All-imp (λ u. s u ≡ success) (λ u. put_status t x s u ≡ success) us
      λ u e. put_status-done t x s u h (ap is_done e) ∙ e
Settled-put_status t x s all_done us h =
    All-imp (λ u. is_done (s u) ≡ true) (λ u. is_done (put_status t x s u) ≡ true) us
      λ u e. ap is_done (put_status-done t x s u h e) ∙ e

module _ (A : Scheduler) (P : Platform) (sla : ℤ) where
  Starts-Settled :
      (r : TriggerRule) (s : RunState) (us : List TaskId) → A.Starts r (map s us) → Settled s r us
  Starts-Settled all_success s us h =
      All-map (λ x. x ≡ success) s us ((A.all_success_lem (map s us)).0 h)
  Starts-Settled all_done s us h =
      All-map (λ x. is_done x ≡ true) s us ((A.all_done_lem (map s us)).0 h)

  -- One of the tasks before it is broken, and its rule wants them all.
  abbrev pub Doomed : RunState → TriggerRule → List TaskId → Type 0
  Doomed s r us = (r ≡ all_success) × Any (λ u. is_broken (s u) ≡ true) us

  GivesUp-Doomed :
      (r : TriggerRule) (s : RunState) (us : List TaskId) → A.GivesUp r (map s us) → Doomed s r us
  GivesUp-Doomed all_success s us h =
      (refl, Any-map (λ x. is_broken x ≡ true) s us ((A.give_up_lem (map s us)).0 h))
  GivesUp-Doomed all_done s us h = absurd (A.all_done_stays (map s us) h)

  broken_done : (x : Status) → is_broken x ≡ true → is_done x ≡ true
  broken_done failed h = refl
  broken_done upstream_failed h = refl
  broken_done waiting h = absurd cc
  broken_done running h = absurd cc
  broken_done up_for_retry h = absurd cc
  broken_done success h = absurd cc

  Doomed-put_status :
      (t : TaskId) (x : Status) (s : RunState) (r : TriggerRule) (us : List TaskId)
      → is_done (s t) ≡ false
      → Doomed s r us
      → Doomed (put_status t x s) r us
  Doomed-put_status t x s r us h (e, any) = (
    e,
    Any-imp (λ u. is_broken (s u) ≡ true) (λ u. is_broken (put_status t x s u) ≡ true) us
        (λ u b. ap is_broken (put_status-done t x s u h (broken_done (s u) b)) ∙ b) any,
  )

  -- A state of the tasks, with what is known of those that succeeded.
  pub record IsSound (W : TaskId → Type 0) (s : RunState) : Type 0 where
    pub settled : (t : TaskId) → is_begun (s t) ≡ true → Settled s (trigger_rule t) (upstream t)
    pub worked : (t : TaskId) → s t ≡ success → W t
    pub doomed : (t : TaskId) → s t ≡ upstream_failed → Doomed s (trigger_rule t) (upstream t)

  -- What a step has changed, and why.
  record Change (W : TaskId → Type 0) (s : RunState) (t : TaskId) (x : Status) : Type 0 where
    pub was_open : is_done (s t) ≡ false
    pub now_begun : is_begun x ≡ true → Settled s (trigger_rule t) (upstream t)
    pub now_success : x ≡ success → W t
    pub now_doomed : x ≡ upstream_failed → Doomed s (trigger_rule t) (upstream t)

  changed-IsSound :
      (W : TaskId → Type 0) (s : RunState) (t : TaskId) (x : Status)
      → Change W s t x
      → IsSound W s
      → IsSound W (put_status t x s)
  changed-IsSound W s t x c i = record {
    settled = λ u b.
        Settled-put_status t x s (trigger_rule u) (upstream u) c.was_open
          (elim (put_status-cases t x s u) [
            | inl (e, f) ↦
                subst (λ v. Settled s (trigger_rule v) (upstream v)) e
                  (c.now_begun (sym (ap is_begun f) ∙ b))
            | inr f ↦ i.settled u (sym (ap is_begun f) ∙ b)
          ]);
    worked = λ u h. elim (put_status-cases t x s u) [
      | inl (e, f) ↦ subst W e (c.now_success (sym f ∙ h))
      | inr f ↦ i.worked u (sym f ∙ h)
    ];
    doomed = λ u h.
        Doomed-put_status t x s (trigger_rule u) (upstream u) c.was_open
          (elim (put_status-cases t x s u) [
            | inl (e, f) ↦
                subst (λ v. Doomed s (trigger_rule v) (upstream v)) e (c.now_doomed (sym f ∙ h))
            | inr f ↦ i.doomed u (sym f ∙ h)
          ]);
  }

  step-IsSound :
      (W : TaskId → Type 0) {w : Outside P} {s s' : RunState}
      → Step A P sla w s s'
      → ((t : TaskId) → s t ≡ running → Works A P sla t w → W t)
      → IsSound W s
      → IsSound W s'
  step-IsSound W {w} {s} (begin t o h) k i =
      changed-IsSound W s t running
        (record {
          was_open = ap is_done o;
          now_begun = λ b. Starts-Settled (trigger_rule t) s (upstream t) h;
          now_success = λ e. absurd cc;
          now_doomed = λ e. absurd cc;
        })
        i
  step-IsSound W {w} {s} (abandon t o h) k i =
      changed-IsSound W s t upstream_failed
        (record {
          was_open = ap is_done o;
          now_begun = λ b. absurd cc;
          now_success = λ e. absurd cc;
          now_doomed = λ e. GivesUp-Doomed (trigger_rule t) s (upstream t) h;
        })
        i
  step-IsSound W {w} {s} (succeed t o h) k i =
      changed-IsSound W s t success
        (record {
          was_open = ap is_done o;
          now_begun = λ b. i.settled t (ap is_begun o);
          now_success = λ e. k t o h;
          now_doomed = λ e. absurd cc;
        })
        i
  step-IsSound W {w} {s} (fail t o) k i =
      changed-IsSound W s t failed
        (record {
          was_open = ap is_done o;
          now_begun = λ b. i.settled t (ap is_begun o);
          now_success = λ e. absurd cc;
          now_doomed = λ e. absurd cc;
        })
        i
  step-IsSound W {w} {s} (retry t o) k i =
      changed-IsSound W s t up_for_retry
        (record {
          was_open = ap is_done o;
          now_begun = λ b. i.settled t (ap is_begun o);
          now_success = λ e. absurd cc;
          now_doomed = λ e. absurd cc;
        })
        i
  step-IsSound W {w} {s} (again t o) k i =
      changed-IsSound W s t running
        (record {
          was_open = ap is_done o;
          now_begun = λ b. i.settled t (ap is_begun o);
          now_success = λ e. absurd cc;
          now_doomed = λ e. absurd cc;
        })
        i

  -- The task has done its work at a moment of the run in which it was running.
  abbrev pub Done : {s : RunState} {w : Outside P} → Reach A P sla s w → TaskId → Type 0
  Done r t = During A P sla r t (Works A P sla t)

  latest : {s : RunState} {w : Outside P} (r : Reach A P sla s w) → Visited A P sla r s w
  latest (created w) = (refl, refl)
  latest (moved r step w) = inl (refl, refl)

  still :
      (W : TaskId → Type 0) (W' : TaskId → Type 0) (s : RunState)
      → ((t : TaskId) → W t → W' t)
      → IsSound W s
      → IsSound W' s
  still W W' s k i = record {
    settled = i.settled;
    worked = λ t e. k t (i.worked t e);
    doomed = i.doomed;
  }

  -- In every state of every run: a task that has been started found the tasks before it as its rule
  -- wants them, and they still are so; a task in success has done its work at a moment of the run; and
  -- a task is given up only under the rule that wants every task before it, where one of them is broken.
  pub Reach-IsSound : {s : RunState} {w : Outside P} (r : Reach A P sla s w) → IsSound (Done r) s
  Reach-IsSound (created w) = record {
    settled = λ t b. absurd cc;
    worked = λ t e. absurd cc;
    doomed = λ t e. absurd cc;
  }
  Reach-IsSound (moved {s} {s'} {w} r step w') =
      step-IsSound (Done (moved r step w')) step (λ t run works. (s, w, inr (latest r), run, works))
        (still (Done r) (Done (moved r step w')) s
          (λ t (s0, w0, seen, run, works). (s0, w0, inr seen, run, works)) (Reach-IsSound r))
