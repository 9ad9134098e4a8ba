-- ===== src/Service.antt =====
-- ingestion/service.py: the window to fetch, the cycle over the symbols, and the fallback.
pub mod Rules
pub mod Window
pub mod Cycle
pub mod Budget
pub mod Frame
pub mod Degradation
pub mod Recovery
pub mod Outcome
pub mod Backfill
pub mod Startup
pub mod Refresh
pub mod Run
pub mod Landed
pub mod Main
pub mod Trusted
use crypto_analytics_platfor.Base.{
  ℕ, Bool, true, false, String, List, [], ◌∷◌, Option, none, some, if◌then◌else◌,
}
use crypto_analytics_platfor.Base.Int.{ℤ}
use crypto_analytics_platfor.Base.Result.{Result, ok, err, Exception}
use crypto_analytics_platfor.Datetime.{Datetime}
use crypto_analytics_platfor.Db.Connection.{Database}
use crypto_analytics_platfor.Environment.{Environment}
use crypto_analytics_platfor.Metrics.{Event, Trace}
use crypto_analytics_platfor.Models.{Candle}

-- `CandleSource`, over the states of the sources that `build_source` can make: what the loop calls.
pub record CandleSources (S : Type 0) : Type 1 where
  pub Source : Type 0
  pub name : Source → String
  pub fetch : String → ℤ → ℤ → Source → S × Trace → Result (List Candle) × Source × (S × Trace)
  pub close : Source → S → S
  -- `build_source("replay", config)`
  pub replay : Source

-- The fields of `Config` that the service reads. Configuration.antt has all of them.
pub record Config : Type 0 where
  pub source : String
  pub symbols : List String
  pub backfill_minutes : ℕ
  pub fallback_after_failures : ℤ
  pub fx_base : String
  pub fx_quote : String
  pub fx_refresh_seconds : ℤ
  pub interval_seconds : ℤ

-- `IngestionService`, with the world and the metrics that its methods change.
pub record Service (S Source : Type 0) : Type 0 where
  pub world : S
  pub trace : Trace
  pub db : Database
  pub source : Source
  pub fallback : Option Source
  pub consecutive_failures : ℕ
  pub last_fx_refresh : Datetime
  pub stopping : Bool

-- A method that may raise; what it has changed by then stays. The sequence of two is shut, so that
-- proofs go by its rules (Rules.antt).
abbrev pub Action : Type 0 → Type 0 → Type 0 → Type 0
Action S Source A = Service S Source → Result A × Service S Source

infixl 5 ◌>>=◌ ◌>>◌
unfoldable pub ◌>>=◌ :
    {S Source A B : Type 0} → Action S Source A → (A → Action S Source B) → Action S Source B
◌>>=◌ m f s = let (r, s') = m s in elim r [ ok a ↦ f a s' | err e ↦ (err e, s') ]

abbrev pub ◌>>◌ :
    {S Source B : Type 0} → Action S Source (Unit {0}) → Action S Source B → Action S Source B
m >> k = m >>= λ _. k

abbrev pub pure : {S Source A : Type 0} → A → Action S Source A
pure a s = (ok a, s)

abbrev pub lift : {S Source A : Type 0} → Result A → Action S Source A
lift r s = (r, s)

abbrev pub emit : {S Source : Type 0} → Event → Action S Source (Unit {0})
emit event s = (ok tt, record s { trace = event ∷ s.trace })

-- `active_source`
abbrev pub active_source : {S Source : Type 0} → Service S Source → Source
active_source s = elim s.fallback [ some f ↦ f | none ↦ s.source ]
