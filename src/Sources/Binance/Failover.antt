-- ===== src/Sources/Binance/Failover.antt =====
-- Which hosts `_fetch_page` asks, and which one it remembers.
use native.Mathlib.Nat.{mod-lt}
use mathlib.Core.List.{append_assoc}
use crypto_analytics_platfor.Base.{
  ℕ, zero, suc, ◌+◌, ◌*◌, ◌≤◌, ◌<◌, ◌≡◌, ◌≢◌, refl, String, List, [], ◌∷◌, ◌++◌, Option, none, some,
  arith, length, length-append, get_elem?, get_elem?_total, inl, inr, Bool-cases, ◌==◌, ◌||◌,
}
use crypto_analytics_platfor.Base.Result.{Result, ok, err, source, hosts_failed}
use crypto_analytics_platfor.Environment.{
  Environment, Params, Reply, response, timed_out, transport_failed, RetryAfter, absent, delay,
  no_float, unending,
}
use crypto_analytics_platfor.Json.{Json, array}
use crypto_analytics_platfor.Metrics.{api_request, http_error}
use crypto_analytics_platfor.Sources.Binance.{Settings, Session, Action, ◌>>=◌, fails_over}
use crypto_analytics_platfor.Sources.Binance.Page.{
  Attempt, returned, raised, next, host_index, accept, rate_limited, refuse, answer, ask,
  attempt_once, settle, attempts, fetch_page,
}

module _ (E : Environment) where
  open E use {State}

  -- The answer to a request asks no further host; a page comes from the host that is remembered.
  abbrev Settles : ℕ → Session State → Result Attempt × Session State → Type 0
  Settles index s (r, s') =
      (s'.calls ≡ s.calls)
      × ((page : List Json) → r ≡ ok (returned page) → s'.preferred ≡ index)
      × (r ≢ ok (raised (source hosts_failed)))
      × (r ≢ err (source hosts_failed))

  accept-Settles :
      (index attempt : ℕ) (body : Option Json) (s : Session State)
      → Settles index s (accept E index attempt body s)
  unfolding accept ◌>>=◌
  accept-Settles index attempt none s = (refl, λ page h. cc, λ h. cc, λ h. cc)
  accept-Settles index attempt (some (array xs)) s = (refl, λ page h. refl, λ h. cc, λ h. cc)
  accept-Settles index attempt (some _) s = (refl, λ page h. cc, λ h. cc, λ h. cc)

  rate_limited-Settles :
      (index attempt : ℕ) (header : RetryAfter) (s : Session State)
      → Settles index s (rate_limited E attempt header s)
  unfolding rate_limited ◌>>=◌
  rate_limited-Settles index attempt absent s = (refl, λ page h. cc, λ h. cc, λ h. cc)
  rate_limited-Settles index attempt (delay d) s = (refl, λ page h. cc, λ h. cc, λ h. cc)
  rate_limited-Settles index attempt no_float s = (refl, λ page h. cc, λ h. cc, λ h. cc)
  rate_limited-Settles index attempt unending s = (refl, λ page h. cc, λ h. cc, λ h. cc)

  refuse-Settles :
      (index status attempt : ℕ) (header : RetryAfter) (s : Session State)
      → Settles index s (refuse E status attempt header s)
  unfolding refuse ◌>>=◌
  refuse-Settles index status attempt header s =
      elim (Bool-cases (status == 429 || status == 418)) [
        | inl limited ↦
            rw (limited, refuse, ◌>>=◌)
              (rate_limited-Settles index attempt header
                (record s { trace = api_request "binance" http_error ∷ s.trace }))
        | inr other ↦ elim (Bool-cases (fails_over status)) [
          | inl over ↦ rw (other, over, refuse, ◌>>=◌) (refl, λ page h. cc, λ h. cc, λ h. cc)
          | inr bad ↦ rw (other, bad, refuse, ◌>>=◌) (refl, λ page h. cc, λ h. cc, λ h. cc)
        ]
      ]

  answer-Settles :
      (index attempt : ℕ) (reply : Reply) (s : Session State)
      → Settles index s (answer E index attempt reply s)
  unfolding answer
  answer-Settles index attempt (response status header body) s = elim (Bool-cases (status == 200)) [
    | inl accepted ↦ rw (accepted, answer) (accept-Settles index attempt body s)
    | inr refused ↦ rw (refused, answer) (refuse-Settles index status attempt header s)
  ]
  answer-Settles index attempt timed_out s = unfold ◌>>=◌ in (refl, λ page h. cc, λ h. cc, λ h. cc)
  answer-Settles index attempt transport_failed s =
      unfold ◌>>=◌ in (refl, λ page h. cc, λ h. cc, λ h. cc)

  module _ (c : Settings) (params : Params) where
    -- One attempt asks one host, the one at the index; a page comes from it, and it is remembered.
    Asks : ℕ → Session State → Result Attempt × Session State → Type 0
    Asks index s (r, s') =
        (host : String) × (get_elem? c.hosts index ≡ some host)
        × (s'.calls ≡ host ∷ s.calls)
        × ((page : List Json) → r ≡ ok (returned page) → s'.preferred ≡ index)
        × (r ≢ ok (raised (source hosts_failed)))
        × (r ≢ err (source hosts_failed))

    ask-Asks :
        (host : String) (index attempt : ℕ) (s : Session State)
        → get_elem? c.hosts index ≡ some host
        → Asks index s (ask E c params (some host) index attempt s)
    unfolding ask ◌>>=◌ Asks
    ask-Asks host index attempt s e =
        let (reply, w) = E.get host "/api/v3/klines" params s.world in
        let (calls, kept, not_raised, not_failed) =
          answer-Settles index attempt reply (record s { world = w; calls = host ∷ s.calls }) in
        (host, e, calls, kept, not_raised, not_failed)

    attempt_once-Asks :
        (attempt : ℕ) (s : Session State)
        → 0 < length c.hosts
        → Asks (host_index c s.preferred attempt) s (attempt_once E c params attempt s)
    unfolding attempt_once
    attempt_once-Asks attempt s h =
        let (host, e) =
          get_elem?_total c.hosts (host_index c s.preferred attempt)
            (mod-lt (s.preferred + attempt) h) in
        rw (e, attempt_once) (ask-Asks host (host_index c s.preferred attempt) attempt s e)

    -- The hosts that a run of the loop asks, newest first.
    abbrev pub Exhausts : ℕ → Session State → Result (List Json) × Session State → Type 0
    Exhausts rounds s out =
        (asked : List String) × (out.1.calls ≡ asked ++ s.calls)
        × (length asked ≤ rounds)
        × (out.0 ≡ err (source hosts_failed) → length asked ≡ rounds)
        × ((page : List Json)
            → out.0 ≡ ok page
            → (host : String) × (rest : List String) × (asked ≡ host ∷ rest)
              × (get_elem? c.hosts out.1.preferred ≡ some host))

    settle-Exhausts :
        (rest : Action State (List Json)) (rounds index : ℕ) (s : Session State)
        (out : Result Attempt × Session State)
        → ((s' : Session State) → Exhausts rounds s' (rest s'))
        → Asks index s out
        → Exhausts (suc rounds) s (settle E c params rest out.0 out.1)
    unfolding Asks
    settle-Exhausts rest rounds index s (err e, s') k
          (host, at, calls, kept, not_raised, not_failed) =
        (host ∷ [], calls, omega arith, λ h. absurd (not_failed (cc)), λ page h. cc)
    settle-Exhausts rest rounds index s (ok (returned page), s') k (host, at, calls, kept, _, _) = (
      host ∷ [],
      calls,
      omega arith,
      λ h. cc,
      λ page' h. (host, [], refl, rw (kept page refl) at),
    )
    settle-Exhausts rest rounds index s (ok (raised e), s') k
          (host, at, calls, kept, not_raised, _) =
        (host ∷ [], calls, omega arith, λ h. absurd (not_raised (cc)), λ page h. cc)
    settle-Exhausts rest rounds index s (ok next, s') k (host, at, calls, kept, _, _) =
        let (asked, more, most, all, last) = k s' in
        (
          asked ++ host ∷ [],
          rw (append_assoc, more, calls),
          omega (arith, length-append asked (host ∷ [])),
          λ h. omega (arith, length-append asked (host ∷ []), all h),
          λ page h.
              let (newest, older, e, at') = last page h in (newest, older ++ host ∷ [], rw e, at'),
        )

    attempts-Exhausts :
        (rounds attempt : ℕ) (s : Session State)
        → 0 < length c.hosts
        → Exhausts rounds s (attempts E c params rounds attempt s)
    unfolding attempts
    attempts-Exhausts zero attempt s h = ([], refl, omega arith, λ e. omega arith, λ page e. cc)
    attempts-Exhausts (suc rounds) attempt s h =
        settle-Exhausts (attempts E c params rounds (attempt + 1)) rounds
          (host_index c s.preferred attempt) s (attempt_once E c params attempt s)
          (λ s'. attempts-Exhausts rounds (attempt + 1) s' h) (attempt_once-Asks attempt s h)

    -- Whatever the hosts answer, with one host at least: a page request asks at most `max_retries`
    -- times as many requests as there are hosts, and exactly so many where it reports that all hosts
    -- failed. Where it returns a page, the host asked last gave it, and is the one remembered.
    pub fetch_page-Exhausts :
        (s : Session State)
        → 0 < length c.hosts
        → Exhausts (c.max_retries * length c.hosts) s (fetch_page E c params s)
    unfolding fetch_page
    fetch_page-Exhausts s h = attempts-Exhausts (c.max_retries * length c.hosts) 0 s h
