-- ===== src/Environment.antt =====
-- What the program reads from outside: the clock, the random generator, and HTTP replies. Their code
-- is no part of the repository, so every component takes them as a parameter.
use crypto_analytics_platfor.Base.{ℕ, ◌≤◌, Bool, String, Option}
use crypto_analytics_platfor.Base.Int.{ℤ}
use crypto_analytics_platfor.Base.Result.{Result, Exception}
use crypto_analytics_platfor.Datetime.{Datetime}
use crypto_analytics_platfor.Json.{Json}

-- The `Retry-After` header: absent, a number of seconds (in milliseconds), or a text that `float` or
-- `sleep` refuses with a ValueError, such as an HTTP date or a negative number; or an
-- infinite number, at which `sleep` raises an OverflowError.
pub data RetryAfter : Type 0 where
  absent : RetryAfter
  delay : ℕ → RetryAfter
  no_float : RetryAfter
  unending : RetryAfter

-- What `session.get` gives or raises. A body that is no JSON makes `response.json()` raise requests'
-- JSONDecodeError, a RequestException.
pub data Reply : Type 0 where
  response : (status : ℕ) → RetryAfter → (body : Option Json) → Reply
  timed_out : Reply
  transport_failed : Reply

-- The `params` of a klines request.
pub record Params : Type 0 where
  pub symbol : String
  pub interval : String
  pub start_time : ℤ
  pub end_time : ℤ
  pub limit : ℕ

-- What goes wrong in one transaction: the connection cannot be made; a statement fails; the commit
-- raises, with or without having taken effect. Then the rollback works or raises too.
pub data Fault : Type 0 where
  no_fault : Fault
  connect_fails : Fault
  statement_fails : (rollback_works : Bool) → Fault
  commit_fails : (applied rollback_works : Bool) → Fault

pub record Environment : Type 1 where
  pub State : Type 0
  pub now : State → Datetime × State
  -- `random.uniform(0, bound)`, in milliseconds.
  pub uniform : ℕ → State → ℕ × State
  pub uniform-le : (bound : ℕ) (s : State) → (uniform bound s).0 ≤ bound
  -- `time.sleep`, in microseconds.
  pub sleep : ℕ → State → State
  -- A GET of a path on a host, with its parameters.
  pub get : (host path : String) → Params → State → Reply × State
  -- A GET of an address.
  pub get_url : String → State → Reply × State
  -- `time.monotonic()`, in microseconds.
  pub monotonic : State → ℕ × State
  -- `datetime.fromisoformat` on a text that is not of the form of a plain date.
  pub other_iso : String → Result Datetime
  -- What `datetime.fromtimestamp` raises for a number of seconds outside the calendar: a ValueError, an
  -- OverflowError or an OSError, as the platform has it.
  pub out_of_range : ℤ → Exception
  -- What the network and the server do to the next transaction.
  pub fault : State → Fault × State
