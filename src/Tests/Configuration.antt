-- ===== src/Tests/Configuration.antt =====
-- The configuration of an empty environment, and of a wrong one.
use crypto_analytics_platfor.Base.{◌≡◌, refl, ◌↔◌, [], ◌∷◌, none, some, pos, if◌then◌else◌}
use crypto_analytics_platfor.Base.Result.{ok, err, value_error}
use crypto_analytics_platfor.Base.Texts.{str_eq}
use crypto_analytics_platfor.Configuration.{Variables, Config, from_env, validate}
use crypto_analytics_platfor.Configuration.Valid.{IsValid, validate_iff, build_source_total}
use crypto_analytics_platfor.Sources.Registry.{Built, replay, build_source}

abbrev pub defaults : Config
defaults = record {
  source = "binance";
  binance_hosts = "https://api.binance.com" ∷ [];
  symbols = "ETHUSDT" ∷ [];
  interval_seconds = pos 20;
  backfill_minutes = pos 180;
  fallback_after_failures = pos 3;
  http_timeout_seconds = pos 15;
  max_retries = pos 4;
  fx_base = "USD";
  fx_quote = "KES";
  fx_refresh_seconds = pos 900;
  postgres = record {
    host = "postgres";
    port = pos 5432;
    database = "crypto";
    user = "crypto_app";
    password = "";
  };
  metrics_port = pos 8000;
  log_level = "INFO";
}

reads_defaults : from_env (λ name. none) ≡ ok defaults
unfolding from_env str_eq
reads_defaults = refl

abbrev symbols_set : Variables
symbols_set name = if str_eq name "SYMBOLS" then some " ethusdt, ,btcusdt," else none

reads_symbols : from_env symbols_set ≡ ok (record defaults { symbols = "ETHUSDT" ∷ "BTCUSDT" ∷ [] })
unfolding from_env str_eq
reads_symbols = refl

abbrev interval_set : Variables
interval_set name = if str_eq name "INGEST_INTERVAL_SECONDS" then some "fast" else none

refuses_text : from_env interval_set ≡ err value_error
unfolding from_env str_eq
refuses_text = refl

accepts_defaults : validate defaults ≡ ok tt
unfolding validate str_eq
accepts_defaults = refl

validate_iff_example : (validate defaults ≡ ok tt) ↔ IsValid defaults
validate_iff_example = validate_iff defaults

build_source_total_example :
    ((b : Built) × (build_source "binance" defaults ≡ ok b))
    × (build_source "replay" defaults ≡ ok replay)
build_source_total_example = build_source_total defaults accepts_defaults
