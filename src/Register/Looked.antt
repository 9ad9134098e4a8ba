-- ===== src/Register/Looked.antt =====
-- Which statuses of the connector end the wait well.
use mathlib.Core.Path.{subst}
use crypto_analytics_platfor.Base.{
  ◌≡◌, ◌≢◌, refl, sym, ap, ◌∙◌, String, Bool, true, false, ◌&&◌, ◌||◌, not, List, [], ◌∷◌, Option,
  none, some, All, if◌then◌else◌,
}
use crypto_analytics_platfor.Base.Result
use crypto_analytics_platfor.Base.Result.{Result, ok, err, bind_elim, ok-injective}
use crypto_analytics_platfor.Base.Texts.{str_eq}
use crypto_analytics_platfor.Configuration.{is_empty}
use crypto_analytics_platfor.Json.{
  Json, null, bool, int, float, str, object, array, nil, cons, end, field, get,
}
use crypto_analytics_platfor.Json.Access.{subscript, get_or, iterate, is_text, truthy}
use crypto_analytics_platfor.Pipeline.Health.{connector_state, states_of}
use crypto_analytics_platfor.Pipeline.Health.Running.{
  IsHealthy, IsRunning, listed-IsHealthy, is_text_elim,
}
use crypto_analytics_platfor.Register.Connect.{
  failed_tasks, give_up, all_running, conclude_status, look,
}

-- A value that is present and not the default, which counts as false, was a member.
subscript-get_or :
    (value : Json) (key : String) {v : Json}
    → get_or value key (array nil) ≡ ok v
    → truthy v ≡ true
    → subscript value key ≡ ok v
unfolding subscript get_or truthy
subscript-get_or (object fs) key h t = go (get key fs) h t
  where
    go :
        (o : Option Json) {v : Json}
        → elim o [ some v ↦ ok v | none ↦ ok (array nil) ] ≡ ok v
        → truthy v ≡ true
        → elim o [ some v ↦ ok v | none ↦ err Result.key_error ] ≡ ok v
    go (some w) g t = g
    go none {v = v} g t =
        absurd (no (subst (λ v. truthy v ≡ true) (sym (ok-injective (array nil) v g)) t))
      where
        no : truthy (array nil) ≡ true → ⊥
        no h = cc
subscript-get_or null key h t = absurd cc
subscript-get_or (bool b) key h t = absurd cc
subscript-get_or (int n) key h t = absurd cc
subscript-get_or (float x) key h t = absurd cc
subscript-get_or (str s) key h t = absurd cc
subscript-get_or (array xs) key h t = absurd cc

truthy-iterate :
    (value : Json) (listed : List Json)
    → truthy value ≡ true
    → iterate value ≡ ok listed
    → listed ≢ []
unfolding truthy iterate str_eq
truthy-iterate (array nil) listed t h e = absurd cc
truthy-iterate (array (cons x xs)) listed t h e = absurd (cc (ok-injective _ _ h))
truthy-iterate (object end) listed t h e = absurd cc
truthy-iterate (object (field k v fs)) listed t h e = absurd (cc (ok-injective _ _ h))
truthy-iterate (str String.[]) listed t h e = absurd cc
truthy-iterate (str (String.◌∷◌ c s)) listed t h e = absurd (cc (ok-injective _ _ h))
truthy-iterate null listed t h e = absurd cc
truthy-iterate (bool b) listed t h e = absurd cc
truthy-iterate (int n) listed t h e = absurd cc
truthy-iterate (float x) listed t h e = absurd cc

and_true : (a b : Bool) → (a && b) ≡ true → (a ≡ true) × (b ≡ true)
and_true true b h = (refl, h)
and_true false b h = absurd cc

states-IsRunning :
    (tasks states : List Json)
    → states_of tasks ≡ ok states
    → all_running states ≡ true
    → All IsRunning tasks
unfolding states_of
states-IsRunning [] states h r = tt
states-IsRunning (t ∷ ts) states h r = bind_elim (subscript t "state") _ h λ state e g.
    bind_elim (states_of ts) _ g λ later e' g'.
      let (first, rest) =
        and_true (is_text state "RUNNING") (all_running later)
          (subst (λ states. all_running states ≡ true) (sym (ok-injective _ _ g')) r) in
      (e ∙ ap ok (is_text_elim state "RUNNING" first), states-IsRunning ts later e' rest)

-- A wait that gives up does not answer.
never : (broken : List Json) → give_up broken ≡ ok true → ⊥
unfolding give_up
never [] h = cc
never (task ∷ tasks) h =
    bind_elim (subscript task "id") _ h
      λ id e g. bind_elim (get_or task "trace" null) _ g λ trace e' g'. never tasks g'

-- The last test of a status, when nothing has failed.
last_test :
    (connector tasks : Json) (states broken : List Json)
    → conclude_status connector tasks states broken ≡ ok true
    → (is_text connector "RUNNING" ≡ true) × (truthy tasks ≡ true) × (all_running states ≡ true)
unfolding conclude_status
last_test connector tasks states broken h =
    go (is_text connector "FAILED" || not (is_empty broken)) h
  where
    go :
        (b : Bool)
        → (if b
            then give_up broken
            else ok (is_text connector "RUNNING" && (truthy tasks && all_running states)))
          ≡ ok true
        → (is_text connector "RUNNING" ≡ true) × (truthy tasks ≡ true) × (all_running states ≡ true)
    go true g = absurd (never broken g)
    go false g =
        let (a, rest) = and_true _ _ (ok-injective _ _ g) in
        let (b, c) = and_true _ _ rest in (a, b, c)

pub look-IsHealthy : (status : Json) → look status ≡ ok true → IsHealthy status
unfolding look connector_state
look-IsHealthy status h = bind_elim (connector_state status) _ h λ state e1 h1.
    bind_elim (subscript status "connector") _ e1 λ connector f1 f2.
      bind_elim (get_or status "tasks" (array nil)) _ h1 λ tasks e2 h2.
        bind_elim (iterate tasks) _ h2 λ listed e3 h3.
          bind_elim (states_of listed) _ h3 λ states e4 h4.
            bind_elim (failed_tasks listed) _ h4 λ broken e5 h5.
              let (runs, some_task, all) = last_test state tasks states broken h5 in
              listed-IsHealthy status connector state tasks listed f1 f2 runs
                (subscript-get_or status "tasks" e2 some_task) e3
                (truthy-iterate tasks listed some_task e3) (states-IsRunning listed states e4 all)
