-- ===== src/Tests/Run.antt =====
-- A run of the service that is asked to stop during its first pause.
use crypto_analytics_platfor.Base.{◌+◌, ◌≡◌, refl, none, arith}
use crypto_analytics_platfor.Service.Run.{run, naps}
use crypto_analytics_platfor.Service.Run.Stops.{Ends, run-Ends}
use crypto_analytics_platfor.Tests.Service.{config, service, scripted-IsTicking}
use crypto_analytics_platfor.Tests.Worlds.{scripted, canned, exact_driver, at}

-- The third read of `_stopping` sees the signal: the loop's own, and then two of the pause.
run-Ends_example :
    Ends scripted canned config exact_driver
      (service none 0)
      (run scripted canned config exact_driver 3 2 (service none 0))
run-Ends_example =
    run-Ends scripted canned config exact_driver 3 2 (service none 0) scripted-IsTicking
      (omega arith)

-- A pause of two and a half seconds is three naps; a signal at the second read leaves one.
naps_whole :
    (naps scripted canned config exact_driver 9 2500000 (service none 0)).service.world.clock
    ≡ at 9 + 2500000
unfolding naps
naps_whole = refl

naps_cut :
    (naps scripted canned config exact_driver 1 2500000 (service none 0)).service.world.clock
    ≡ at 9 + 1000000
unfolding naps
naps_cut = refl
