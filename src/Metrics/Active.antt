-- ===== src/Metrics/Active.antt =====
-- The gauge of the active source.
use crypto_analytics_platfor.Base.{String, Bool, [], ◌∷◌, Option, none, some, if◌then◌else◌}
use crypto_analytics_platfor.Base.Texts.{str_eq}
use crypto_analytics_platfor.Metrics.{active_source, Trace}

-- What the gauge of a source shows: the newest setting.
unfoldable pub shows : String → Trace → Option Bool
shows name [] = none
shows name (active_source source value ∷ trace) =
    if str_eq source name then some value else shows name trace
shows name (_ ∷ trace) = shows name trace
