-- ===== src/Tests/Service.antt =====
-- The service over canned sources.
use crypto_analytics_platfor.Db.{same_key}
use crypto_analytics_platfor.Db.Statements.{contains_key, has_symbol, upsert_row}
use crypto_analytics_platfor.Base.Texts.{str_eq}
use crypto_analytics_platfor.Datetime.{floor_minute, minus, plus}
use crypto_analytics_platfor.Sources.Grid.{last_closed_minute}
use crypto_analytics_platfor.Service.{◌>>=◌}
use crypto_analytics_platfor.Base.{
  ◌+◌, All, ℕ, zero, suc, ◌≤◌, ◌≡◌, refl, ◌⊎◌, true, false, [], ◌∷◌, Option, none, some, pos, arith,
}
use crypto_analytics_platfor.Base.Result.{Result, ok, err, runtime_error}
use crypto_analytics_platfor.Metrics.{active_source}
use crypto_analytics_platfor.Base.Texts.{str_eq}
use crypto_analytics_platfor.Metrics.Active.{shows}
use crypto_analytics_platfor.Service.{Config, Service}
use crypto_analytics_platfor.Service.Rules.{Ensures}
use crypto_analytics_platfor.Service.Window.{budget_span, window_end, window_start, pending_window}
use crypto_analytics_platfor.Service.Budget.{IsWindow, pending_window-IsWindow, window_start_healed}
use crypto_analytics_platfor.Service.Cycle.{try_symbols, conclude, cycle}
use crypto_analytics_platfor.Service.Degradation.{IsLoud, conclude-IsLoud}
use crypto_analytics_platfor.Service.Outcome.{EndsAs, conclude-EndsAs, failures-le}
use crypto_analytics_platfor.Service.Recovery.{IsRecovered, cycle-IsRecovered}
use crypto_analytics_platfor.Service.Backfill.{has_key, run_backfill, run_backfill-Ensures}
use crypto_analytics_platfor.Db.Connection.{Handle, absent, live}
use crypto_analytics_platfor.Service.Startup.{
  IsOpen, wait_for_database-Settles, IsTicking, wait_rounds, wait_for_database, wait_rounds_fuel,
}
use crypto_analytics_platfor.Environment.{connect_fails}
use crypto_analytics_platfor.Tests.Db.{database}
use crypto_analytics_platfor.Tests.Worlds.{World, Canned, scripted, canned, exact_driver, at, bar}

abbrev pub config : Config
config = record {
  source = "binance";
  symbols = "BTCUSDT" ∷ [];
  backfill_minutes = 60;
  fallback_after_failures = pos 3;
  fx_base = "USD";
  fx_quote = "KES";
  fx_refresh_seconds = pos 3600;
  interval_seconds = pos 20;
}

-- The live source has nothing to give.
abbrev pub service : Option Canned → ℕ → Service World Canned
service fallback failures = record {
  world = record { clock = at 9; replies = []; faults = [] };
  trace = active_source "replay" false ∷ active_source "binance" true ∷ [];
  db = database;
  source = record { label = "binance"; candles = [] };
  fallback = fallback;
  consecutive_failures = failures;
  last_fx_refresh = at 0;
  stopping = false;
}

-- The newest candle held is that of minute 2, and the clock stands at minute 9.
pends_six_minutes :
    (pending_window scripted canned "BTCUSDT" 60 (service none 0)).0 ≡ ok (at 3, at 9)
unfolding pending_window ◌>>=◌ last_closed_minute minus floor_minute plus str_eq
pends_six_minutes = refl

pending_window-IsWindow_example :
    Ensures
      (IsWindow scripted canned (service none 0) "BTCUSDT" 60)
      (pending_window scripted canned "BTCUSDT" 60 (service none 0))
pending_window-IsWindow_example =
    pending_window-IsWindow scripted canned "BTCUSDT" 60 (service none 0)

ends_at_minute : window_end (at 9) ≡ ok (at 9)
unfolding window_end last_closed_minute minus floor_minute plus
ends_at_minute = refl

fits : budget_span 60 ≤ at 9
unfolding budget_span
fits = omega arith

window_start_healed_example : window_start 60 (at 9) (some (at 8)) ≡ ok (at 9)
window_start_healed_example = window_start_healed 60 (at 9) (at 8) ends_at_minute refl fits

-- A service whose database cannot be reached three times.
abbrev cut_off : Service World Canned
cut_off = record (service none 0) {
  world = record {
    clock = at 9;
    replies = [];
    faults = connect_fails ∷ connect_fails ∷ connect_fails ∷ [];
  };
}

abbrev after_cycles : ℕ → Service World Canned
after_cycles zero = cut_off
after_cycles (suc n) = (cycle scripted canned config exact_driver (after_cycles n)).1

failures_of : ℕ → ℕ
failures_of n =
    (try_symbols scripted canned config exact_driver config.symbols (after_cycles n)).0.1

service-IsLoud : IsLoud scripted canned config (service none 2)
unfolding shows str_eq
service-IsLoud = record { replay_shown = refl; live_shown = refl }

conclude-IsLoud_example :
    IsLoud scripted canned config
      (conclude scripted canned config exact_driver 1 1 (service none 2))
conclude-IsLoud_example =
    conclude-IsLoud scripted canned config exact_driver 1 1 (service none 2) refl service-IsLoud

conclude-EndsAs_example :
    EndsAs scripted canned config 3 2
      (service none 1)
      (conclude scripted canned config exact_driver 3 2 (service none 1))
conclude-EndsAs_example = conclude-EndsAs scripted canned config exact_driver 3 2 (service none 1)

failures-le_example :
    (try_symbols scripted canned config exact_driver ("BTCUSDT" ∷ []) (service none 0)).0.1 ≤ 1
failures-le_example =
    failures-le scripted canned config exact_driver ("BTCUSDT" ∷ []) (service none 0)

-- The live source fails, and the symbol with it.
live_fails :
    (try_symbols scripted canned config exact_driver ("BTCUSDT" ∷ []) (service none 0)).0 ≡ (0, 1)
unfolding try_symbols ◌>>=◌ last_closed_minute minus floor_minute plus str_eq
live_fails = refl

-- On the fallback the symbol succeeds, whatever the live source would say.
fallback_works :
    (try_symbols scripted canned config exact_driver
      ("BTCUSDT" ∷ [])
      (service (some canned.replay) 3)).0.1
    ≡ 0
unfolding try_symbols ◌>>=◌ last_closed_minute minus floor_minute plus str_eq exact_driver
    contains_key has_symbol upsert_row same_key
fallback_works = refl

cycle-IsRecovered_example :
    IsRecovered scripted canned config
      (record { label = "binance"; candles = [] })
      (cycle scripted canned config exact_driver (service (some canned.replay) 3)).1
cycle-IsRecovered_example =
    cycle-IsRecovered scripted canned config exact_driver (service (some canned.replay) 3) refl
      fallback_works

-- The configured source has the bar of minute 3.
abbrev stocked : Service World Canned
stocked = record (service none 0) {
  source = record { label = "binance"; candles = bar 3 100 ∷ [] };
}

backfills_one :
    (run_backfill scripted canned config exact_driver none stocked).0 ≡ ok (("BTCUSDT", 1) ∷ [])
unfolding run_backfill ◌>>=◌ str_eq last_closed_minute minus floor_minute plus exact_driver
    contains_key upsert_row same_key
backfills_one = refl

run_backfill-Ensures_example :
    Ensures
      (λ after s'.
        All (λ symbol. has_key symbol after ≡ true) ("BTCUSDT" ∷ []) × (s'.db.handle ≡ absent))
      (run_backfill scripted canned config exact_driver none stocked)
run_backfill-Ensures_example = run_backfill-Ensures scripted canned config exact_driver none stocked

pub scripted-IsTicking : IsTicking scripted
scripted-IsTicking = record {
  sleeps = λ d w. omega arith;
  reads = λ w. omega arith;
  fails = λ w. omega arith;
}

-- Two refused connections, then one that works.
abbrev waiting : Service World Canned
waiting = record (service none 0) {
  world = record { clock = at 9; replies = []; faults = connect_fails ∷ connect_fails ∷ [] };
  db = record database { handle = absent };
}

-- How a wait ended, when, and with which connection.
abbrev seen :
    Option (Result (Unit {0}) × Service World Canned) → Option (Result (Unit {0}) × ℕ × Handle)
seen none = none
seen (some (r, s)) = some (r, s.world.clock, s.db.handle)

waits_twice :
    seen (wait_for_database scripted canned 120 waiting) ≡ some (ok tt, at 9 + 6000000, live)
unfolding wait_for_database
waits_twice = refl

wait_rounds_fuel_example :
    wait_rounds scripted canned 2 (at 9 + 5000000) waiting
    ≡ wait_rounds scripted canned 9 (at 9 + 5000000) waiting
wait_rounds_fuel_example =
    wait_rounds_fuel scripted canned 2 9 (at 9 + 5000000) waiting scripted-IsTicking (omega arith)
      (omega arith)

wait_for_database-Settles_example :
    (r : Result (Unit {0})) × (t : Service World Canned) × (wait_for_database scripted canned 120
        waiting
      ≡ some (r, t))
    × (t.db.tables ≡ waiting.db.tables)
    × (((r ≡ ok tt) × IsOpen scripted canned t.db.handle) ⊎ (r ≡ err runtime_error))
wait_for_database-Settles_example =
    wait_for_database-Settles scripted canned 120 waiting scripted-IsTicking
