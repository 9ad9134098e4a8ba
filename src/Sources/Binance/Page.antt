-- ===== src/Sources/Binance/Page.antt =====
-- `_fetch_page` and `_backoff`.
use crypto_analytics_platfor.Base.{
  ℕ, zero, suc, ◌+◌, ◌*◌, ◌%◌, ◌^◌, min, String, ◌||◌, List, ◌∷◌, Option, none, some, ◌==◌,
  if◌then◌else◌, length, get_elem?,
}
use crypto_analytics_platfor.Base.Result.{
  Result, ok, err, Exception, source, http_status, not_a_json_array, hosts_failed, value_error,
  overflow_error, index_error,
}
use crypto_analytics_platfor.Environment.{
  Environment, Params, Reply, response, timed_out, transport_failed, RetryAfter, absent, delay,
  no_float, unending,
}
use crypto_analytics_platfor.Json.{Json, array, item_list}
use crypto_analytics_platfor.Metrics.{api_request, success, http_error, timeout, transport_error}
use crypto_analytics_platfor.Sources.Binance.{Settings, Action, ◌>>=◌, ◌>>◌, pure, emit, fails_over}

-- How one attempt ends: it leaves the loop, or the loop goes on.
pub data Attempt : Type 0 where
  returned : List Json → Attempt
  raised : Exception → Attempt
  next : Attempt

abbrev pub host_index : Settings → ℕ → ℕ → ℕ
host_index c preferred attempt = (preferred + attempt) % length c.hosts

-- The cap of the jitter of an attempt, in milliseconds: min(30, 0.5 * 2 ^ attempt) seconds.
abbrev pub backoff_cap : ℕ → ℕ
backoff_cap attempt = min 30000 (500 * 2 ^ attempt)

module _ (E : Environment) where
  open E use {State}

  unfoldable pub backoff : ℕ → Action State ℕ
  backoff attempt s =
      let (d, w) = E.uniform (backoff_cap attempt) s.world in (ok d, record s { world = w })

  abbrev pub sleep : ℕ → Action State (Unit {0})
  sleep d s = (ok tt, record s { world = E.sleep (d * 1000) s.world })

  -- `self._session.get(url, ...)`, which notes the host.
  abbrev pub request : String → Params → Action State Reply
  request host params s =
      let (r, w) = E.get host "/api/v3/klines" params s.world in
      (ok r, record s { world = w; calls = host ∷ s.calls })

  abbrev pub prefer : ℕ → Action State (Unit {0})
  prefer i s = (ok tt, record s { preferred = i })

  -- The sleep at the end of an attempt that raised a Timeout or another RequestException.
  abbrev pub pause : ℕ → Action State Attempt
  pause attempt = do d ← backoff attempt; sleep d; pure next

  -- Status 200.
  unfoldable pub accept : ℕ → ℕ → Option Json → Action State Attempt
  unfolding backoff
  accept index attempt none = do
    emit (api_request "binance" success)
    prefer index
    emit (api_request "binance" transport_error)
    pause attempt
  accept index attempt (some (array xs)) = do
    emit (api_request "binance" success)
    prefer index
    pure (returned (item_list xs))
  accept index attempt (some _) = do
    emit (api_request "binance" success)
    prefer index
    pure (raised (source not_a_json_array))

  -- 429 and 418: the default delay is drawn before the header is looked at.
  unfoldable pub rate_limited : ℕ → RetryAfter → Action State Attempt
  unfolding backoff
  rate_limited attempt absent = do d ← backoff attempt; sleep d; pure next
  rate_limited attempt (delay d) = do backoff attempt >>= λ _. sleep d; pure next
  rate_limited attempt no_float = do backoff attempt >>= λ _. pure (raised value_error)
  rate_limited attempt unending = do backoff attempt >>= λ _. pure (raised overflow_error)

  unfoldable pub refuse : ℕ → ℕ → RetryAfter → Action State Attempt
  unfolding rate_limited fails_over
  refuse status attempt header = do
    emit (api_request "binance" http_error)
    if status == 429 || status == 418
        then rate_limited attempt header
        else if fails_over status
        then pure next
        else pure (raised (source (http_status status)))

  unfoldable pub answer : ℕ → ℕ → Reply → Action State Attempt
  unfolding accept refuse
  answer index attempt (response status header body) =
      if status == 200 then accept index attempt body else refuse status attempt header
  answer index attempt timed_out = do emit (api_request "binance" timeout); pause attempt
  answer index attempt transport_failed = do
    emit (api_request "binance" transport_error)
    pause attempt

  module _ (c : Settings) (params : Params) where
    -- `host = self._hosts[index]`, and the request to it.
    unfoldable pub ask : Option String → ℕ → ℕ → Action State Attempt
    unfolding answer
    ask none index attempt s = (err index_error, s)
    ask (some host) index attempt s = (request host params >>= answer index attempt) s

    -- The body of the loop.
    unfoldable pub attempt_once : ℕ → Action State Attempt
    unfolding ask
    attempt_once attempt s =
        let index = host_index c s.preferred attempt in
        ask (get_elem? c.hosts index) index attempt s

    -- What the end of an attempt does to the loop.
    abbrev pub settle : Action State (List Json) → Result Attempt → Action State (List Json)
    settle rest (err e) s = (err e, s)
    settle rest (ok (returned page)) s = (ok page, s)
    settle rest (ok (raised e)) s = (err e, s)
    settle rest (ok next) s = rest s

    -- `for attempt in range(attempts)`, from the number of rounds left.
    unfoldable pub attempts : ℕ → ℕ → Action State (List Json)
    unfolding attempt_once
    attempts zero attempt s = (err (source hosts_failed), s)
    attempts (suc rounds) attempt s =
        let (r, s') = attempt_once attempt s in settle (attempts rounds (attempt + 1)) r s'

    unfoldable pub fetch_page : Action State (List Json)
    unfolding attempts attempt_once
    fetch_page = attempts (c.max_retries * length c.hosts) 0
