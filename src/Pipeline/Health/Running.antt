-- ===== src/Pipeline/Health/Running.antt =====
-- Which statuses of the connector count as healthy.
use mathlib.Core.Path.{subst}
use crypto_analytics_platfor.Base.{
  ◌≡◌, ◌≢◌, refl, sym, ◌∙◌, ap, ◌↔◌, String, Bool, true, false, not, List, [], ◌∷◌, map, Option,
  none, some, All, if◌then◌else◌,
}
use crypto_analytics_platfor.Base.Result
use crypto_analytics_platfor.Base.Result.{
  Result, ok, err, raise_if, runtime_error, raise_if-eq-ok, bind_elim, ok-injective,
}
use crypto_analytics_platfor.Base.Texts.{str_eq_iff}
use crypto_analytics_platfor.Configuration.{is_empty}
use crypto_analytics_platfor.Json.{
  Json, null, bool, int, float, str, array, object, Items, nil, item_list, Fields, end, field, get,
}
use crypto_analytics_platfor.Json.Access.{subscript, get_or, iterate, is_text, keys, characters}
use crypto_analytics_platfor.Pipeline.Health.{
  states_of, report, check_tasks, check_states, check_state, connector_state, task_states,
  assert_cdc_healthy,
}

-- A task whose state is RUNNING.
abbrev pub IsRunning : Json → Type 0
IsRunning task = subscript task "state" ≡ ok (str "RUNNING")

-- A healthy status: the connector is RUNNING, and there are tasks, each RUNNING.
pub record IsHealthy (status : Json) : Type 0 where
  pub connector : Json
  pub has_connector : subscript status "connector" ≡ ok connector
  pub connector_runs : IsRunning connector
  pub tasks : Items
  pub has_tasks : subscript status "tasks" ≡ ok (array tasks)
  pub some_task : item_list tasks ≢ []
  pub tasks_run : All IsRunning (item_list tasks)

get_or-subscript :
    (value : Json) (key : String) (default : Json) {v : Json}
    → subscript value key ≡ ok v
    → get_or value key default ≡ ok v
unfolding subscript get_or
get_or-subscript (object fs) key default h = go (get key fs) h
  where
    go :
        (o : Option Json) {v : Json}
        → elim o [ some v ↦ ok v | none ↦ err Result.key_error ] ≡ ok v
        → elim o [ some v ↦ ok v | none ↦ ok default ] ≡ ok v
    go (some w) g = g
    go none g = absurd cc
get_or-subscript null key default h = absurd cc
get_or-subscript (bool b) key default h = absurd cc
get_or-subscript (int n) key default h = absurd cc
get_or-subscript (float x) key default h = absurd cc
get_or-subscript (str s) key default h = absurd cc
get_or-subscript (array xs) key default h = absurd cc

pub is_text_elim : (value : Json) (s : String) → is_text value s ≡ true → value ≡ str s
unfolding is_text
is_text_elim (str t) s h = ap str ((str_eq_iff t s).0 h)
is_text_elim null s h = absurd cc
is_text_elim (bool b) s h = absurd cc
is_text_elim (int n) s h = absurd cc
is_text_elim (float x) s h = absurd cc
is_text_elim (object fs) s h = absurd cc
is_text_elim (array xs) s h = absurd cc

is_text_intro : is_text (str "RUNNING") "RUNNING" ≡ true
unfolding is_text
is_text_intro = (str_eq_iff "RUNNING" "RUNNING").1 refl

abbrev pub all_states : List Json → List Json
all_states = map (λ task. str "RUNNING")

states_of-running : (ts : List Json) → All IsRunning ts → states_of ts ≡ ok (all_states ts)
unfolding states_of
states_of-running [] h = refl
states_of-running (t ∷ ts) h = rw (h.0, states_of-running ts h.1) refl

check_tasks-running : (ts : List Json) → All IsRunning ts → check_tasks ts ≡ ok tt
unfolding check_tasks
check_tasks-running [] h = refl
check_tasks-running (t ∷ ts) h = rw (h.0, is_text_intro, check_tasks-running ts h.1) refl

report_raises : (task : Json) → report task ≢ ok tt
unfolding report
report_raises task h =
    bind_elim (subscript task "id") _ h
      λ id e g. bind_elim (get_or task "trace" null) _ g λ trace e' g'. cc

-- One task of the loop: it runs, or the loop ends there.
first_runs :
    (t : Json) (ts : List Json)
    → (check_tasks ts ≡ ok tt → All IsRunning ts)
    → (state : Json) → subscript t "state" ≡ ok state
    → (b : Bool) → is_text state "RUNNING" ≡ b
    → (if b then check_tasks ts else report t) ≡ ok tt
    → All IsRunning (t ∷ ts)
first_runs t ts later state e true b g = (e ∙ ap ok (is_text_elim state "RUNNING" b), later g)
first_runs t ts later state e false b g = absurd (report_raises t g)

check_tasks-IsRunning : (ts : List Json) → check_tasks ts ≡ ok tt → All IsRunning ts
unfolding check_tasks
check_tasks-IsRunning [] h = tt
check_tasks-IsRunning (t ∷ ts) h =
    bind_elim (subscript t "state") _ h λ state e g.
      first_runs t ts (check_tasks-IsRunning ts) state e (is_text state "RUNNING") refl g

no_text_runs : (s : String) → All IsRunning (characters s) → characters s ≢ [] → ⊥
unfolding subscript
no_text_runs String.[] all h = h refl
no_text_runs (String.◌∷◌ c s) all h = absurd (cc (all.0))

no_key_runs : (fs : Fields) → All IsRunning (keys fs) → keys fs ≢ [] → ⊥
unfolding subscript
no_key_runs end all h = h refl
no_key_runs (field k v fs) all h = absurd (cc (all.0))

-- Only an array lists tasks that run.
running_array :
    (value : Json) (listed : List Json)
    → iterate value ≡ ok listed
    → All IsRunning listed
    → listed ≢ []
    → (xs : Items) × (value ≡ array xs) × (item_list xs ≡ listed)
unfolding iterate
running_array (array xs) listed e all h = (xs, refl, ok-injective _ _ e)
running_array (str s) listed e all h =
    absurd (subst (λ l. All IsRunning l → l ≢ [] → ⊥) (ok-injective _ _ e) (no_text_runs s) all h)
running_array (object fs) listed e all h =
    absurd (subst (λ l. All IsRunning l → l ≢ [] → ⊥) (ok-injective _ _ e) (no_key_runs fs) all h)
running_array null listed e all h = absurd cc
running_array (bool b) listed e all h = absurd cc
running_array (int n) listed e all h = absurd cc
running_array (float x) listed e all h = absurd cc

some_task_state :
    (ts states : List Json) → states_of ts ≡ ok states → is_empty states ≡ false → ts ≢ []
unfolding states_of
some_task_state [] [] e h g = cc
some_task_state [] (s ∷ states) e h g = cc
some_task_state (t ∷ ts) states e h g = cc

not_empty : (ts : List Json) → ts ≢ [] → is_empty (all_states ts) ≡ false
not_empty [] h = absurd (h refl)
not_empty (t ∷ ts) h = refl

healthy-Succeeds :
    (status : Json) (h : IsHealthy status)
    → assert_cdc_healthy status ≡ ok (str "RUNNING", all_states (item_list h.tasks))
unfolding assert_cdc_healthy connector_state task_states check_state check_states iterate
healthy-Succeeds status h =
    rw
      (
        h.has_connector,
        h.connector_runs,
        get_or-subscript status "tasks" (array nil) h.has_tasks,
        states_of-running _ h.tasks_run,
        is_text_intro,
        not_empty _ h.some_task,
        h.has_tasks,
        check_tasks-running _ h.tasks_run,
      )
      refl

-- The states were read from the tasks that the loop looks at.
same_tasks :
    (status tasks : Json) (listed states : List Json)
    → subscript status "tasks" ≡ ok tasks
    → iterate tasks ≡ ok listed
    → task_states status ≡ ok states
    → states_of listed ≡ ok states
unfolding task_states
same_tasks status tasks listed states e g h =
    sym (rw (get_or-subscript status "tasks" (array nil) e, g) refl) ∙ h

pub listed-IsHealthy :
    (status connector state tasks : Json) (listed : List Json)
    → subscript status "connector" ≡ ok connector
    → subscript connector "state" ≡ ok state
    → is_text state "RUNNING" ≡ true
    → subscript status "tasks" ≡ ok tasks
    → iterate tasks ≡ ok listed
    → listed ≢ []
    → All IsRunning listed
    → IsHealthy status
listed-IsHealthy status connector state tasks listed e1 e2 b e3 e4 some_task all =
    let (xs, is_array, same) = running_array tasks listed e4 all some_task in
    record {
      connector = connector;
      has_connector = e1;
      connector_runs = e2 ∙ ap ok (is_text_elim state "RUNNING" b);
      tasks = xs;
      has_tasks = e3 ∙ ap ok is_array;
      some_task = subst (λ l. l ≢ []) (sym same) some_task;
      tasks_run = subst (All IsRunning) (sym same) all;
    }

of_negated : (b : Bool) → not b ≡ false → b ≡ true
of_negated true h = refl
of_negated false h = cc

state-IsHealthy :
    (status state : Json) (states : List Json)
    → connector_state status ≡ ok state
    → task_states status ≡ ok states
    → check_state status states state ≡ ok tt
    → IsHealthy status
unfolding connector_state check_state check_states
state-IsHealthy status state states h1 h2 h3 =
    bind_elim (subscript status "connector") _ h1 λ connector e1 e2.
      bind_elim (raise_if (not (is_text state "RUNNING")) runtime_error) _ h3 λ u q k.
        bind_elim (raise_if (is_empty states) runtime_error) _ k λ u' q' k'.
          bind_elim (subscript status "tasks") _ k' λ tasks e3 k''.
            bind_elim (iterate tasks) _ k'' λ listed e4 g.
              listed-IsHealthy status connector state tasks listed e1 e2
                (of_negated _ (raise_if-eq-ok _ _ q)) e3 e4
                (some_task_state listed states (same_tasks status tasks listed states e3 e4 h2)
                  (raise_if-eq-ok _ _ q'))
                (check_tasks-IsRunning listed g)

success-IsHealthy :
    (status : Json) {r : Json × List Json} → assert_cdc_healthy status ≡ ok r → IsHealthy status
unfolding assert_cdc_healthy
success-IsHealthy status h = bind_elim (connector_state status) _ h λ c h1 k1.
    bind_elim (task_states status) _ k1 λ states h2 k2.
      bind_elim (check_state status states c) _ k2
        λ u h3 k3. state-IsHealthy status c states h1 h2 h3

-- The run goes on exactly when the status is healthy: an unreadable status raises, as one with a
-- connector or a task in another state does, and one without tasks.
pub assert_cdc_healthy_iff :
    (status : Json)
    → ((r : Json × List Json) × (assert_cdc_healthy status ≡ ok r)) ↔ IsHealthy status
assert_cdc_healthy_iff status =
    (λ (r, h). success-IsHealthy status h, λ h. (_, healthy-Succeeds status h))
