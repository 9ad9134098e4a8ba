-- ===== src/Sources/Registry.antt =====
-- ingestion/sources/__init__.py: a source, by its name.
use crypto_analytics_platfor.Base.{String, if◌then◌else◌}
use crypto_analytics_platfor.Base.Int.{pos_part}
use crypto_analytics_platfor.Base.Result.{Result, ok, err, ◌>>=◌, value_error}
use crypto_analytics_platfor.Base.Texts.{str_eq}
use crypto_analytics_platfor.Configuration.{Config}
use crypto_analytics_platfor.Sources.Binance.{Settings, make}

pub data Built : Type 0 where
  binance : Settings → Built
  replay : Built

unfoldable pub build_source : String → Config → Result Built
unfolding make
build_source name c =
    if str_eq name "binance"
    then (do settings ← make c.binance_hosts (pos_part c.max_retries); ok (binance settings))
    else if str_eq name "replay"
    then ok replay
    else err value_error
