-- ===== src/Register/Registered.antt =====
-- When the registration is reported as done.
use Prim.Native.String.{◌++◌ as ◌<>◌}
use mathlib.Core.Path.{subst}
use crypto_analytics_platfor.Base.{
  ℕ, zero, suc, ◌+◌, ◌*◌, ◌/◌, ◌≡◌, refl, sym, ap, ◌∙◌, String, Bool, true, false, ltb, none, some,
  if◌then◌else◌, arith,
}
use crypto_analytics_platfor.Base.Result
use crypto_analytics_platfor.Base.Result.{Result, ok, err, bind_elim, ok-injective}
use crypto_analytics_platfor.Configuration.{Variables}
use crypto_analytics_platfor.Json.{Json, null, Fields}
use crypto_analytics_platfor.Json.Access.{subscript}
use crypto_analytics_platfor.Pipeline.Health.Running.{IsHealthy}
use crypto_analytics_platfor.Register.Looked.{look-IsHealthy}
use crypto_analytics_platfor.Register.Connect.{
  Failure, Outcome, done, failed, raised, Reply, body, Machine, decoded, look, request, Round, over,
  again, retried, is_retried, looked, next_round, poll, asked, wait_for_running, wait_for_connect,
  exit_code, register, loaded, main, connected, submitted, exited, with_payload, configuration_code,
}

-- The exit code, and 1 for a traceback.
abbrev code_of : Outcome ℕ → ℕ
code_of (done n) = n
code_of (failed f) = 1

configuration_code-nonzero : (f : Failure) → configuration_code f ≡ done 0 → ⊥
unfolding configuration_code
configuration_code-nonzero Failure.http h = omega (arith, ap code_of h)
configuration_code-nonzero Failure.os h = omega (arith, ap code_of h)
configuration_code-nonzero Failure.timed_out h = omega (arith, ap code_of h)
configuration_code-nonzero (raised (Result.validation r)) h = omega (arith, ap code_of h)
configuration_code-nonzero (raised (Result.source p)) h = omega (arith, ap code_of h)
configuration_code-nonzero (raised Result.fx_error) h = omega (arith, ap code_of h)
configuration_code-nonzero (raised Result.value_error) h = omega (arith, ap code_of h)
configuration_code-nonzero (raised Result.type_error) h = omega (arith, ap code_of h)
configuration_code-nonzero (raised Result.index_error) h = omega (arith, ap code_of h)
configuration_code-nonzero (raised Result.key_error) h = omega (arith, ap code_of h)
configuration_code-nonzero (raised Result.attribute_error) h = omega (arith, ap code_of h)
configuration_code-nonzero (raised Result.overflow_error) h = omega (arith, ap code_of h)
configuration_code-nonzero (raised Result.invalid_operation) h = omega (arith, ap code_of h)
configuration_code-nonzero (raised Result.runtime_error) h = omega (arith, ap code_of h)
configuration_code-nonzero (raised Result.database_error) h = omega (arith, ap code_of h)
configuration_code-nonzero (raised Result.timeout) h = omega (arith, ap code_of h)
configuration_code-nonzero (raised Result.request) h = omega (arith, ap code_of h)

exit_code-zero : (r : Outcome (Unit {0})) → exit_code r ≡ done 0 → r ≡ done tt
unfolding exit_code
exit_code-zero (done u) h = refl
exit_code-zero (failed Failure.http) h = absurd (omega (arith, ap code_of h))
exit_code-zero (failed Failure.os) h = absurd (omega (arith, ap code_of h))
exit_code-zero (failed Failure.timed_out) h = absurd (omega (arith, ap code_of h))
exit_code-zero (failed (raised (Result.validation r))) h = absurd (omega (arith, ap code_of h))
exit_code-zero (failed (raised (Result.source p))) h = absurd (omega (arith, ap code_of h))
exit_code-zero (failed (raised Result.fx_error)) h = absurd (omega (arith, ap code_of h))
exit_code-zero (failed (raised Result.value_error)) h = absurd (omega (arith, ap code_of h))
exit_code-zero (failed (raised Result.type_error)) h = absurd (omega (arith, ap code_of h))
exit_code-zero (failed (raised Result.index_error)) h = absurd (omega (arith, ap code_of h))
exit_code-zero (failed (raised Result.key_error)) h = absurd (omega (arith, ap code_of h))
exit_code-zero (failed (raised Result.attribute_error)) h = absurd (omega (arith, ap code_of h))
exit_code-zero (failed (raised Result.overflow_error)) h = absurd (omega (arith, ap code_of h))
exit_code-zero (failed (raised Result.invalid_operation)) h = absurd (omega (arith, ap code_of h))
exit_code-zero (failed (raised Result.runtime_error)) h = absurd (omega (arith, ap code_of h))
exit_code-zero (failed (raised Result.database_error)) h = absurd (omega (arith, ap code_of h))
exit_code-zero (failed (raised Result.timeout)) h = absurd (omega (arith, ap code_of h))
exit_code-zero (failed (raised Result.request)) h = absurd (omega (arith, ap code_of h))

done-injective : (a b : Json) → done a ≡ done b → a ≡ b
done-injective a b h = cc

module _ (M : Machine) where
  open M use {State}

  -- A wait that returns had a round that was over.
  poll-over :
      (nap : ℕ) (round : State → Round (Unit {0}) × State) (fuel deadline : ℕ) (s t : State)
      → poll M nap round fuel deadline s ≡ (done tt, t)
      → (s' : State) × (round s' ≡ (over (done tt), t))
  unfolding poll next_round
  poll-over nap round zero deadline s t h = absurd (cc (ap (λ p. p.0) h))
  poll-over nap round (suc fuel) deadline s t h =
      early (ltb (M.now s).0 deadline) h (λ s1 t' g. poll-over nap round fuel deadline s1 t' g)
    where
      later :
          ((s1 t' : State)
            → poll M nap round fuel deadline s1 ≡ (done tt, t')
            → (s' : State) × (round s' ≡ (over (done tt), t')))
          → (r : Round (Unit {0}) × State) → (s2 s3 : State) → round s2 ≡ r
          → next_round M nap (poll M nap round fuel deadline) r ≡ (done tt, s3)
          → (s' : State) × (round s' ≡ (over (done tt), s3))
      later k (over (done u), s1) s2 s3 e g = (s2, e ∙ λ i. (over (done u), ap (λ p. p.1) g i))
      later k (over (failed f), s1) s2 s3 e g = absurd (cc (ap (λ p. p.0) g))
      later k (again, s1) s2 s3 e g = k _ _ g

      early :
          (b : Bool)
          → (if b
              then next_round M nap (poll M nap round fuel deadline) (round (M.now s).1)
              else (failed Failure.timed_out, (M.now s).1))
            ≡ (done tt, t)
          → ((s1 t' : State)
              → poll M nap round fuel deadline s1 ≡ (done tt, t')
              → (s' : State) × (round s' ≡ (over (done tt), t')))
          → (s' : State) × (round s' ≡ (over (done tt), t))
      early true g k = later k (round (M.now s).1) (M.now s).1 t refl g
      early false g k = absurd (cc (ap (λ p. p.0) g))

  -- The last reply before a state: the status that it holds is healthy.
  pub record Answers (path : String) (t : State) : Type 0 where
    pub at : State
    pub status : Json
    pub reply : M.send "GET" path none at ≡ (body (some status), t)
    pub healthy : IsHealthy status

  -- Only an answer with a healthy status ends the wait well.
  looked-IsHealthy :
      (r : Outcome Json)
      → looked r ≡ over (done tt)
      → (status : Json) × (r ≡ done status) × IsHealthy status
  unfolding looked retried
  looked-IsHealthy (done status) h = go (look status) refl h
    where
      go :
          (v : Result Bool)
          → look status ≡ v
          → elim v [
            | ok running ↦ (if running then over (done tt) else again)
            | err e ↦ over (failed (raised e))
          ]
            ≡ over (done tt)
          → (status' : Json) × (done status ≡ done status') × IsHealthy status'
      go (ok true) e g = (status, refl, look-IsHealthy status e)
      go (ok false) e g = absurd cc
      go (err x) e g = absurd (cc)
  looked-IsHealthy (failed f) h = absurd (retried_goes_on f h)
    where
      retried_goes_on : (f : Failure) → retried f ≡ over (done tt) → ⊥
      retried_goes_on f h = go (is_retried f) h
        where
          go :
              (b : Bool)
              → ◌≡◌ {A = Round (Unit {0})} (if b then again else over (failed f)) (over (done tt))
              → ⊥
          go true g = cc
          go false g = cc

  decoded-body :
      (r : Reply) {status : Json}
      → decoded r ≡ done status
      → IsHealthy status
      → r ≡ body (some status)
  unfolding decoded subscript
  decoded-body (body (some value)) e h = ap (λ v. body (some v)) (done-injective value _ e)
  decoded-body (body none) e h = absurd cc
  decoded-body Reply.empty e h = absurd (
      cc (
        subst (λ v. subscript v "connector" ≡ ok h.connector) (sym (done-injective null _ e))
          h.has_connector))
  decoded-body Reply.http_error e h = absurd cc
  decoded-body Reply.os_error e h = absurd cc

  wait_for_running-Answers :
      (connector : String) (fuel deadline : ℕ) (s t : State)
      → wait_for_running M connector fuel deadline s ≡ (done tt, t)
      → Answers ("/connectors/" <> (connector <> "/status")) t
  unfolding wait_for_running request
  wait_for_running-Answers connector fuel deadline s t h =
      let path = "/connectors/" <> (connector <> "/status") in
      let (s', e) =
        poll-over 2000000 (λ s. asked M looked (request M "GET" path none s)) fuel deadline s t h in
      let (status, r, healthy) =
        looked-IsHealthy (decoded (M.send "GET" path none s').0) (ap (λ p. p.0) e) in
      record {
        at = s';
        status = status;
        reply = λ i. (decoded-body (M.send "GET" path none s').0 r healthy i, ap (λ p. p.1) e i);
        healthy = healthy;
      }

  exited-zero :
      (r : Outcome (Unit {0}) × State) (t : State) → exited M r ≡ (done 0, t) → r ≡ (done tt, t)
  exited-zero (r, s) t h = λ i. (exit_code-zero r (ap (λ p. p.0) h) i, ap (λ p. p.1) h i)

  -- What an exit with 0 stands for: the template was read, with every variable that it names set, and the
  -- last answer of Connect is that the connector of the template runs, with tasks that all run.
  pub record IsRegistered (env : Variables) (template : Outcome Json) (t : State) : Type 0 where
    pub connector : String
    pub config : Fields
    pub loads : loaded M env template ≡ done (connector, config)
    pub answers : Answers ("/connectors/" <> (connector <> "/status")) t

  register-Answers :
      (fuel deadline : ℕ) (connector : String) (config : Fields) (s t : State)
      → register M fuel deadline connector config s ≡ (done tt, t)
      → Answers ("/connectors/" <> (connector <> "/status")) t
  unfolding register
  register-Answers fuel deadline connector config s t h =
      after_connect (wait_for_connect M fuel deadline s) h
    where
      after_submit :
          (r : Outcome Json × State)
          → submitted M (wait_for_running M connector fuel deadline) r ≡ (done tt, t)
          → Answers ("/connectors/" <> (connector <> "/status")) t
      after_submit (done reply, s') g = wait_for_running-Answers connector fuel deadline s' t g
      after_submit (failed f, s') g = absurd (cc (ap (λ p. p.0) g))

      after_connect :
          (r : Outcome (Unit {0}) × State)
          → connected M
              (λ s'.
                submitted M
                  (wait_for_running M connector fuel deadline)
                  (request M "PUT" ("/connectors/" <> (connector <> "/config")) (some config) s'))
              r
            ≡ (done tt, t)
          → Answers ("/connectors/" <> (connector <> "/status")) t
      after_connect (done u, s') g = after_submit _ g
      after_connect (failed f, s') g = absurd (cc (ap (λ p. p.0) g))

  -- `main` exits with 0 only where the template could be read and resolved, and the last that Kafka
  -- Connect has answered is that the connector is RUNNING, with at least one task, and every task
  -- RUNNING.
  pub main-IsRegistered :
      (wait_seconds : ℕ) (env : Variables) (template : Outcome Json) (s t : State)
      → main M wait_seconds env template s ≡ (done 0, t)
      → IsRegistered env template t
  unfolding main
  main-IsRegistered wait_seconds env template s t h = go (loaded M env template) refl h
    where
      go :
          (o : Outcome (String × Fields))
          → loaded M env template ≡ o
          → with_payload M
              (wait_seconds / 2 + 1)
              ((M.now s).0 + wait_seconds * 1000000)
              o
              (M.now s).1
            ≡ (done 0, t)
          → IsRegistered env template t
      go (failed f) e g = absurd (configuration_code-nonzero f (ap (λ p. p.0) g))
      go (done (connector, config)) e g = record {
        connector = connector;
        config = config;
        loads = e;
        answers = register-Answers _ _ connector config _ _ (exited-zero _ t g);
      }
