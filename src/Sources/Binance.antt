-- ===== src/Sources/Binance.antt =====
-- ingestion/sources/binance.py: the klines client, with host failover, rate limits and pages.
pub mod Rules
pub mod Page
pub mod Fetch
pub mod Failover
pub mod Fuel
pub mod Kept
pub mod Malformed
pub mod Elapsed
use crypto_analytics_platfor.Base.{
  ℕ, String, Bool, true, false, ◌||◌, List, [], ◌∷◌, ◌==◌, if◌then◌else◌, length,
}
use crypto_analytics_platfor.Base.Int.{ℤ}
use crypto_analytics_platfor.Base.Result.{Result, ok, err, Exception, value_error}
use crypto_analytics_platfor.Metrics.{Event, Trace}

-- The object: its settings, and what a call changes. `calls` lists the hosts asked, newest first.
pub record Settings : Type 0 where
  pub hosts : List String
  -- A negative `max_retries` makes no attempt, as 0 does.
  pub max_retries : ℕ

pub record Session (S : Type 0) : Type 0 where
  pub preferred : ℕ
  pub world : S
  pub trace : Trace
  pub calls : List String

-- A method that may raise, with the sequence of two shut, so that proofs go by the rules for it. The object stays changed by what was done before.
abbrev pub Action : Type 0 → Type 0 → Type 0
Action S A = Session S → Result A × Session S

infixl 5 ◌>>=◌ ◌>>◌
unfoldable pub ◌>>=◌ : {S A B : Type 0} → Action S A → (A → Action S B) → Action S B
◌>>=◌ m f s = let (r, s') = m s in elim r [ ok a ↦ f a s' | err e ↦ (err e, s') ]

abbrev pub ◌>>◌ : {S B : Type 0} → Action S (Unit {0}) → Action S B → Action S B
m >> k = m >>= λ _. k

abbrev pub pure : {S A : Type 0} → A → Action S A
pure a s = (ok a, s)

abbrev pub raise : {S A : Type 0} → Exception → Action S A
raise e s = (err e, s)

-- What only computes or raises.
abbrev pub lift : {S A : Type 0} → Result A → Action S A
lift r s = (r, s)

abbrev pub emit : {S : Type 0} → Event → Action S (Unit {0})
emit event s = (ok tt, record s { trace = event ∷ s.trace })

abbrev pub max_limit : ℕ
max_limit = 1000

-- FAILOVER_STATUSES
unfoldable pub fails_over : ℕ → Bool
fails_over status =
    status == 403
    || status == 418
    || status == 451
    || status == 500
    || status == 502
    || status == 503
    || status == 504

-- `__init__` refuses an empty list of hosts.
unfoldable pub make : List String → ℕ → Result Settings
make [] max_retries = err value_error
make (host ∷ hosts) max_retries = ok (record { hosts = host ∷ hosts; max_retries = max_retries })
