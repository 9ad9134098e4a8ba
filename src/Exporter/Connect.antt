-- ===== src/Exporter/Connect.antt =====
-- The collector of Kafka Connect of exporter/main.py, and one scrape of all three systems.
use crypto_analytics_platfor.Base.{
  ℕ, suc, ◌==◌, ◌&&◌, leb, ltb, String, List, [], ◌∷◌, Option, none, some, if◌then◌else◌,
}
use crypto_analytics_platfor.Base.Result
use crypto_analytics_platfor.Base.Result.{
  Result, ok, err, index_error, value_error, request, type_error,
}
use crypto_analytics_platfor.Base.Texts.{str_eq}
use crypto_analytics_platfor.Json.{Json, array, nil, str}
use crypto_analytics_platfor.Json.Access.{get_or, iterate, is_text}
use crypto_analytics_platfor.Pipeline.Health.{connector_state, states_of}
use crypto_analytics_platfor.Exporter.{
  connector_up, connector_tasks, http_error, other, Outcome, done, raised, Answer, Targets,
  Exporter, ◌>>=◌, ◌>>◌, lift, call, set, clear, guarded,
}
use crypto_analytics_platfor.Exporter.Collect.{
  of_result, Step, each, collect_postgres, collect_clickhouse,
}

-- Tasks by their states, in the order of the first ones.
unfoldable pub add_state : String → List (String × ℕ) → List (String × ℕ)
unfolding str_eq
add_state state [] = (state, 1) ∷ []
add_state state ((k, n) ∷ rest) =
    let later = add_state state rest in if str_eq k state then (k, suc n) ∷ rest else (k, n) ∷ later

module _ (T : Targets) where
  open T use {State, Float}

  -- The states of the tasks, as the keys that they are counted under.
  unfoldable pub count_states : List Json → List (String × ℕ) → Outcome (List (String × ℕ))
  unfolding add_state
  count_states [] counts = done counts
  count_states (str state ∷ states) counts = count_states states (add_state state counts)
  count_states (value ∷ states) counts = elim (T.label_of value) [
    | done state ↦ count_states states (add_state state counts)
    | raised e ↦ raised e
  ]

  unfoldable pub set_tasks : String → String × ℕ → Step T
  set_tasks connector (state, n) = set connector_tasks (connector ∷ state ∷ []) (T.of_count n)

  abbrev pub listed_tasks : Json → Result (List Json)
  listed_tasks status =
      Result.◌>>=◌ (get_or status "tasks" (array nil))
        λ tasks. Result.◌>>=◌ (iterate tasks) λ listed. states_of listed

  -- `response.json()` and what is read from it.
  unfoldable pub read_status : String → Json → Step T
  unfolding connector_state is_text count_states each set_tasks get_or iterate states_of
  read_status connector status = do
    state ← lift (of_result (connector_state status))
    set connector_up (connector ∷ []) (if is_text state "RUNNING" then T.one else T.zero)
    states ← lift (of_result (listed_tasks status))
    counts ← lift (count_states states [])
    clear connector_tasks
    each T (set_tasks connector) counts

  unfoldable pub read_document : String → Option Json → Step T
  unfolding read_status
  read_document connector none = lift (raised (other request))
  read_document connector (some status) = read_status connector status

  unfoldable pub read_answer : String → Answer → Step T
  unfolding read_document
  read_answer connector answer =
      if answer.status_code == 404
      then set connector_up (connector ∷ []) T.zero
      else if leb 400 answer.status_code && ltb answer.status_code 600
      then lift (raised http_error)
      else read_document connector answer.document

  -- `collect_connect`, without its guard.
  unfoldable pub collect_connect : String → Step T
  unfolding read_answer
  collect_connect connector = call T.get_status >>= read_answer connector

  -- `scrape_once`
  unfoldable pub scrape_once : String → Exporter State Float → Exporter State Float
  unfolding guarded collect_postgres collect_clickhouse collect_connect
  scrape_once connector s =
      let (pg_stats, s1) = guarded T "postgres" (collect_postgres T) s in
      let s2 = (guarded T "clickhouse" (collect_clickhouse T pg_stats) s1).1 in
      (guarded T "kafka-connect" (collect_connect connector) s2).1
