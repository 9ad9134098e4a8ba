-- ===== src/Register/Connect.antt =====
-- The REST calls of scripts/register_connector.py, its two waits, and `main`.
pub mod Fuel
use Prim.Native.String.{◌++◌ as ◌<>◌}
use crypto_analytics_platfor.Base.{
  ℕ, zero, suc, ◌+◌, ◌*◌, ◌/◌, String, Bool, true, false, ltb, ◌&&◌, ◌||◌, not, List, [], ◌∷◌,
  Option, none, some, if◌then◌else◌,
}
use crypto_analytics_platfor.Base.Result
use crypto_analytics_platfor.Base.Result.{
  Result, ok, err, Exception, value_error, key_error, runtime_error, type_error,
}
use crypto_analytics_platfor.Configuration.{Variables, is_empty}
use crypto_analytics_platfor.Json.{Json, null, str, object, array, nil, Fields}
use crypto_analytics_platfor.Json.Access.{subscript, get_or, iterate, is_text, truthy}
use crypto_analytics_platfor.Pipeline.Health.{connector_state, states_of}
use crypto_analytics_platfor.Register.Template.{load_payload}

-- What is raised: an HTTPError, another URLError or OSError, the TimeoutError of a wait, or any other.
pub data Failure : Type 0 where
  http : Failure
  os : Failure
  timed_out : Failure
  raised : Exception → Failure

pub data Outcome (A : Type 0) : Type 0 where
  done : A → Outcome A
  failed : Failure → Outcome A

-- What `urlopen` gives: a body, decoded if it is JSON and not empty, or an error.
pub data Reply : Type 0 where
  empty : Reply
  body : Option Json → Reply
  http_error : Reply
  os_error : Reply

-- Kafka Connect, the clock, and `time.sleep`, in microseconds.
pub record Machine : Type 1 where
  pub State : Type 0
  pub send : (method path : String) → Option Fields → State → Reply × State
  pub now : State → ℕ × State
  pub sleep : ℕ → State → State
  -- The text of a name that is none.
  pub shown : Json → String

abbrev pub of_result : {A : Type 0} → Result A → Outcome A
of_result (ok a) = done a
of_result (err e) = failed (raised e)

unfoldable pub decoded : Reply → Outcome Json
decoded empty = done null
decoded (body (some value)) = done value
decoded (body none) = failed (raised value_error)
decoded http_error = failed http
decoded os_error = failed os

-- `except (urllib.error.URLError, OSError, ValueError)`: the wait goes on.
unfoldable pub is_retried : Failure → Bool
is_retried http = true
is_retried os = true
is_retried timed_out = true
is_retried (raised value_error) = true
is_retried (raised _) = false

-- `task["state"] == "FAILED"`
unfoldable pub failed_tasks : List Json → Result (List Json)
unfolding subscript is_text
failed_tasks [] = ok []
failed_tasks (task ∷ tasks) =
    let later = failed_tasks tasks in
    Result.◌>>=◌ (subscript task "state")
      λ state. Result.◌>>=◌ later λ rest. ok (if is_text state "FAILED" then task ∷ rest else rest)

-- The lines about the failed tasks name their `id`; then the RuntimeError.
unfoldable pub give_up : List Json → Result Bool
unfolding subscript get_or
give_up [] = err runtime_error
give_up (task ∷ tasks) =
    let later = give_up tasks in
    Result.◌>>=◌ (subscript task "id") λ id. Result.◌>>=◌ (get_or task "trace" null) λ trace. later

abbrev pub all_running : List Json → Bool
all_running [] = true
all_running (state ∷ states) = is_text state "RUNNING" && all_running states

unfoldable pub conclude_status : Json → Json → List Json → List Json → Result Bool
unfolding give_up is_text truthy
conclude_status connector tasks states broken =
    if is_text connector "FAILED" || not (is_empty broken)
    then give_up broken
    else ok (is_text connector "RUNNING" && (truthy tasks && all_running states))

-- What a status says: whether all is RUNNING, or that the wait is over with an error.
unfoldable pub look : Json → Result Bool
unfolding connector_state get_or iterate states_of failed_tasks conclude_status
look status = Result.◌>>=◌ (connector_state status) λ connector.
    Result.◌>>=◌ (get_or status "tasks" (array nil)) λ tasks. Result.◌>>=◌ (iterate tasks) λ listed.
      Result.◌>>=◌ (states_of listed) λ states.
        Result.◌>>=◌ (failed_tasks listed) λ broken. conclude_status connector tasks states broken

-- One round of a wait: it is over with a value or an error, or the loop sleeps and goes on.
pub data Round (A : Type 0) : Type 0 where
  over : Outcome A → Round A
  again : Round A

-- An error inside the try of `wait_for_connect`, or of the request of `wait_for_running`.
unfoldable pub retried : Failure → Round (Unit {0})
unfolding is_retried
retried f = if is_retried f then again else over (failed f)

-- `info.get("kafka_cluster_id")` is inside the try.
unfoldable pub answered : Outcome Json → Round (Unit {0})
unfolding get_or retried
answered (done info) = elim (get_or info "kafka_cluster_id" null) [
  | ok id ↦ over (done tt)
  | err e ↦ retried (raised e)
]
answered (failed f) = retried f

-- The status is read outside the try.
unfoldable pub looked : Outcome Json → Round (Unit {0})
unfolding look retried
looked (done status) = elim (look status) [
  | ok running ↦ (if running then over (done tt) else again)
  | err e ↦ over (failed (raised e))
]
looked (failed f) = retried f

-- The two handlers of the second try of `main`.
unfoldable pub exit_code : Outcome (Unit {0}) → Outcome ℕ
exit_code (done u) = done 0
exit_code (failed http) = done 1
exit_code (failed os) = done 1
exit_code (failed timed_out) = done 1
exit_code (failed (raised runtime_error)) = done 1
exit_code (failed (raised e)) = failed (raised e)

-- `except (OSError, KeyError, ValueError)`
unfoldable pub configuration_code : Failure → Outcome ℕ
configuration_code (raised key_error) = done 2
configuration_code (raised value_error) = done 2
configuration_code (raised e) = failed (raised e)
configuration_code _ = done 2

module _ (M : Machine) where
  open M use {State}

  -- `request`
  unfoldable pub request : String → String → Option Fields → State → Outcome Json × State
  unfolding decoded
  request method path fields s =
      let (reply, s') = M.send method path fields s in (decoded reply, s')

  unfoldable pub next_round :
      ℕ
      → (State → Outcome (Unit {0}) × State)
      → Round (Unit {0}) × State
      → Outcome (Unit {0}) × State
  next_round nap rest (over r, s) = (r, s)
  next_round nap rest (again, s) = rest (M.sleep nap s)

  -- `while time.time() < deadline`, on fuel: without any, the test that ends the loop.
  unfoldable pub poll :
      (nap : ℕ) → (State → Round (Unit {0}) × State) → ℕ → ℕ → State → Outcome (Unit {0}) × State
  unfolding next_round
  poll nap round zero deadline s = (failed timed_out, (M.now s).1)
  poll nap round (suc fuel) deadline s =
      let (now, s') = M.now s in
      let rest = next_round nap (poll nap round fuel deadline) (round s') in
      if ltb now deadline then rest else (failed timed_out, s')

  abbrev pub asked :
      (Outcome Json → Round (Unit {0})) → Outcome Json × State → Round (Unit {0}) × State
  asked judge (r, s) = (judge r, s)

  unfoldable pub wait_for_connect : ℕ → ℕ → State → Outcome (Unit {0}) × State
  unfolding poll answered request
  wait_for_connect fuel deadline =
      poll 3000000 (λ s. asked answered (request "GET" "/" none s)) fuel deadline

  unfoldable pub wait_for_running : String → ℕ → ℕ → State → Outcome (Unit {0}) × State
  unfolding poll looked request
  wait_for_running connector fuel deadline =
      poll 2000000
        (λ s. asked looked (request "GET" ("/connectors/" <> (connector <> "/status")) none s)) fuel
        deadline

  abbrev pub exited : Outcome (Unit {0}) × State → Outcome ℕ × State
  exited (r, s) = (exit_code r, s)

  abbrev pub submitted :
      (State → Outcome (Unit {0}) × State) → Outcome Json × State → Outcome (Unit {0}) × State
  submitted next (done reply, s) = next s
  submitted next (failed f, s) = (failed f, s)

  abbrev pub connected :
      (State → Outcome (Unit {0}) × State) → Outcome (Unit {0}) × State → Outcome (Unit {0}) × State
  connected next (done u, s) = next s
  connected next (failed f, s) = (failed f, s)

  -- The second try: Connect answers, takes the configuration, and runs it.
  unfoldable pub register : ℕ → ℕ → String → Fields → State → Outcome (Unit {0}) × State
  unfolding wait_for_connect wait_for_running request
  register fuel deadline connector config s =
      connected
        (λ s'.
          submitted (wait_for_running connector fuel deadline)
            (request "PUT" ("/connectors/" <> (connector <> "/config")) (some config) s'))
        (wait_for_connect fuel deadline s)

  -- The name, as the paths print it.
  unfoldable pub printed : Json → String
  printed (str connector) = connector
  printed value = M.shown value

  unfoldable pub loaded : Variables → Outcome Json → Outcome (String × Fields)
  unfolding load_payload printed
  loaded env (failed f) = failed f
  loaded env (done template) = elim (load_payload env template) [
    | ok (connector, config) ↦ done (printed connector, config)
    | err e ↦ failed (raised e)
  ]

  abbrev pub with_payload : ℕ → ℕ → Outcome (String × Fields) → State → Outcome ℕ × State
  with_payload fuel deadline (failed f) s = (configuration_code f, s)
  with_payload fuel deadline (done (connector, config)) s =
      exited (register fuel deadline connector config s)

  -- `main`, from the file of the template as it is read, and WAIT_SECONDS.
  unfoldable pub main : ℕ → Variables → Outcome Json → State → Outcome ℕ × State
  unfolding loaded register exit_code configuration_code
  main wait_seconds env template s =
      let (now, s') = M.now s in
      with_payload (wait_seconds / 2 + 1) (now + wait_seconds * 1000000) (loaded env template) s'
