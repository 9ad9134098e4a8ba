-- ===== src/Sources/Binance/Elapsed.antt =====
-- How long one page of klines can ask to sleep.
use crypto_analytics_platfor.Base.{
  ℕ, zero, suc, ◌+◌, ◌*◌, ◌≤◌, ◌≡◌, refl, max, String, ◌||◌, List, ◌∷◌, Option, none, some, inl,
  inr, ◌==◌, arith, Bool-cases, length, get_elem?,
}
use crypto_analytics_platfor.Base.Result.{Result, ok, err}
use crypto_analytics_platfor.Environment.{
  Environment, Params, Reply, response, timed_out, transport_failed, RetryAfter, absent, delay,
  no_float, unending,
}
use crypto_analytics_platfor.Json.{Json, array}
use crypto_analytics_platfor.Metrics.{
  api_request, success, transport_error, timeout as timeout_outcome,
}
use crypto_analytics_platfor.Sources.Binance.{Settings, Session, Action, ◌>>=◌, fails_over}
use crypto_analytics_platfor.Sources.Binance.Page.{
  Attempt, returned, raised, next, host_index, backoff_cap, backoff, pause, accept, rate_limited,
  refuse, answer, ask, attempt_once, settle, attempts, fetch_page,
}

-- What has been asked of `time.sleep` so far, in microseconds, as a meter on the state; and no host
-- names a longer delay than `longest` milliseconds.
pub record IsMetered (E : Environment) (slept : E.State → ℕ) (longest : ℕ) : Type 0 where
  pub draws : (bound : ℕ) (w : E.State) → slept (E.uniform bound w).1 ≡ slept w
  pub sleeps : (d : ℕ) (w : E.State) → slept (E.sleep d w) ≡ slept w + d
  pub asks :
      (host path : String) (params : Params) (w : E.State)
      → slept (E.get host path params w).1 ≡ slept w
  pub delays :
      (host path : String) (params : Params) (w : E.State) (status d : ℕ) (body : Option Json)
      → (E.get host path params w).0 ≡ response status (delay d) body
      → d ≤ longest

module _ (E : Environment) (slept : E.State → ℕ) (longest : ℕ)
    (metered : IsMetered E slept longest) where
  open E use {State}

  -- The longest pause at the end of an attempt: thirty seconds, or what a host asked for.
  abbrev pub longest_pause : ℕ
  longest_pause = 1000 * max 30000 longest

  abbrev pub Within : ℕ → {A : Type 0} → Action State A → Session State → Type 0
  Within n m s = slept (m s).1.world ≤ slept s.world + n

  cap_le : (attempt : ℕ) → backoff_cap attempt ≤ 30000
  cap_le attempt = omega arith

  pause-Within : (attempt : ℕ) (s : Session State) → Within longest_pause (pause E attempt) s
  unfolding ◌>>=◌ backoff
  pause-Within attempt s =
      let (d, w) = E.uniform (backoff_cap attempt) s.world in
      omega (
        arith,
        metered.draws (backoff_cap attempt) s.world,
        E.uniform-le (backoff_cap attempt) s.world,
        cap_le attempt,
        metered.sleeps (d * 1000) w,
      )

  rate_limited-Within :
      (attempt : ℕ) (header : RetryAfter) (s : Session State)
      → ((d : ℕ) → header ≡ delay d → d ≤ longest)
      → Within longest_pause (rate_limited E attempt header) s
  unfolding rate_limited ◌>>=◌ backoff
  rate_limited-Within attempt absent s h = pause-Within attempt s
  rate_limited-Within attempt (delay d) s h =
      let w = (E.uniform (backoff_cap attempt) s.world).1 in
      omega
        (arith, metered.draws (backoff_cap attempt) s.world, h d refl, metered.sleeps (d * 1000) w)
  rate_limited-Within attempt no_float s h =
      omega (arith, metered.draws (backoff_cap attempt) s.world)
  rate_limited-Within attempt unending s h =
      omega (arith, metered.draws (backoff_cap attempt) s.world)

  accept-Within :
      (index attempt : ℕ) (body : Option Json) (s : Session State)
      → Within longest_pause (accept E index attempt body) s
  unfolding accept ◌>>=◌
  accept-Within index attempt none s = pause-Within attempt (record s {
    trace = api_request "binance" transport_error ∷ api_request "binance" success ∷ s.trace;
    preferred = index;
  })
  accept-Within index attempt (some (array xs)) s = omega arith
  accept-Within index attempt (some _) s = omega arith

  refuse-Within :
      (status attempt : ℕ) (header : RetryAfter) (s : Session State)
      → ((d : ℕ) → header ≡ delay d → d ≤ longest)
      → Within longest_pause (refuse E status attempt header) s
  unfolding refuse ◌>>=◌
  refuse-Within status attempt header s h = elim (Bool-cases (status == 429 || status == 418)) [
    | inl e ↦ rw e (rate_limited-Within attempt header _ h)
    | inr e ↦ elim (Bool-cases (fails_over status)) [
      | inl f ↦ rw (e, f) (omega arith)
      | inr f ↦ rw (e, f) (omega arith)
    ]
  ]

  answer-Within :
      (index attempt : ℕ) (reply : Reply) (s : Session State)
      → ((status d : ℕ) (body : Option Json) → reply ≡ response status (delay d) body → d ≤ longest)
      → Within longest_pause (answer E index attempt reply) s
  unfolding answer ◌>>=◌
  answer-Within index attempt (response status header body) s h =
      elim (Bool-cases (status == 200)) [
        | inl e ↦ rw e (accept-Within index attempt body s)
        | inr e ↦ rw e (
            refuse-Within status attempt header s
              λ d f. h status d body (λ i. response status (f i) body))
      ]
  answer-Within index attempt timed_out s h =
      pause-Within attempt (record s { trace = api_request "binance" timeout_outcome ∷ s.trace })
  answer-Within index attempt transport_failed s h =
      pause-Within attempt (record s { trace = api_request "binance" transport_error ∷ s.trace })

  module _ (c : Settings) (params : Params) where
    ask-Within :
        (host : Option String) (index attempt : ℕ) (s : Session State)
        → Within longest_pause (ask E c params host index attempt) s
    unfolding ask ◌>>=◌
    ask-Within none index attempt s = omega arith
    ask-Within (some host) index attempt s =
        let (reply, w) = E.get host "/api/v3/klines" params s.world in
        let asked = record s { world = w; calls = host ∷ s.calls } in
        omega (
          arith,
          metered.asks host "/api/v3/klines" params s.world,
          answer-Within index attempt reply asked
              (metered.delays host "/api/v3/klines" params s.world),
        )

    settled-Within :
        (n m : ℕ) (rest : Action State (List Json)) (r : Result Attempt) (s : Session State)
        (before : ℕ)
        → slept s.world ≤ before + m
        → ((s' : Session State) → Within n rest s')
        → slept (settle E c params rest r s).1.world ≤ before + (m + n)
    settled-Within n m rest (err e) s before h k = omega arith
    settled-Within n m rest (ok (returned page)) s before h k = omega arith
    settled-Within n m rest (ok (raised e)) s before h k = omega arith
    settled-Within n m rest (ok next) s before h k = omega (arith, k s)

    attempts-Within :
        (rounds attempt : ℕ) (s : Session State)
        → Within (rounds * longest_pause) (attempts E c params rounds attempt) s
    unfolding attempts attempt_once
    attempts-Within zero attempt s = omega arith
    attempts-Within (suc rounds) attempt s =
        let index = host_index c s.preferred attempt in
        let host = get_elem? c.hosts index in
        let each = longest_pause in
        omega (
          arith,
          settled-Within (rounds * each) each (attempts E c params rounds (attempt + 1))
              (ask E c params host index attempt s).0 (ask E c params host index attempt s).1
              (slept s.world) (ask-Within host index attempt s)
              (attempts-Within rounds (attempt + 1)),
        )

    -- Whatever the hosts answer, where none names a delay above `longest`: what one page asks of
    -- `time.sleep` is at most, for each attempt, the longest pause, which is the thirty seconds of the
    -- backoff or `longest`.
    pub fetch_page-Within :
        (s : Session State)
        → Within (c.max_retries * length c.hosts * longest_pause) (fetch_page E c params) s
    unfolding fetch_page
    fetch_page-Within s = attempts-Within (c.max_retries * length c.hosts) 0 s
