-- ===== src/Metrics.antt =====
-- ingestion/metrics.py: each call that counts or sets a metric is an event of a trace, newest first.
-- A counter is the sum of its events, and a gauge shows the newest one. Latencies are not kept.
pub mod Active
use crypto_analytics_platfor.Base.{ℕ, ◌+◌, String, Bool, List, [], ◌∷◌, if◌then◌else◌}
use crypto_analytics_platfor.Base.Int.{ℤ}
use crypto_analytics_platfor.Base.Texts.{str_eq}

pub data Outcome : Type 0 where
  success http_error timeout transport_error : Outcome

pub data CycleOutcome : Type 0 where
  succeeded partial failed : CycleOutcome

pub data ErrorKind : Type 0 where
  api database unexpected : ErrorKind

pub data Event : Type 0 where
  api_request : (source : String) → Outcome → Event
  rows_written : (table symbol : String) → ℕ → Event
  rows_rejected : (table reason : String) → Event
  cycle_done : CycleOutcome → Event
  error : ErrorKind → Event
  last_success : Event
  source_lag : (symbol : String) → ℤ → Event
  backfill_gap : (symbol : String) → ℕ → Event
  active_source : (source : String) → Bool → Event
  consecutive_failures : ℕ → Event
  up : Bool → Event

abbrev pub Trace : Type 0
Trace = List Event

-- `for name in known: ACTIVE_SOURCE.labels(source=name).set(1 if name == active else 0)`
set_known : String → List String → Trace → Trace
set_known active [] trace = trace
set_known active (name ∷ known) trace =
    set_known active known (active_source name (str_eq name active) ∷ trace)

unfoldable pub set_active_source : String → Trace → Trace
unfolding set_known
set_active_source active = set_known active ("binance" ∷ "replay" ∷ [])
