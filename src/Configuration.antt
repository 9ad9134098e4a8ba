-- ===== src/Configuration.antt =====
-- ingestion/config.py: the configuration, its parsing from the environment, and its check.
pub mod Valid
use Prim.Native.String.{◌++◌ as ◌<>◌}
use crypto_analytics_platfor.Base.{
  ℕ, String, Bool, true, false, not, ◌&&◌, List, [], ◌∷◌, Option, none, some, pos, negsuc, map,
  if◌then◌else◌,
}
use crypto_analytics_platfor.Base.Int.{ℤ, ltb_ℤ}
use crypto_analytics_platfor.Base.Result.{Result, ok, err, ◌>>=◌, ◌>>◌, raise_if, value_error}
use crypto_analytics_platfor.Base.Strings.{lower, upper, split, strip, elem}
use crypto_analytics_platfor.Base.Texts.{str_eq}
use crypto_analytics_platfor.Decimal.Literal.{int_of_text}

-- `os.environ`
abbrev pub Variables : Type 0
Variables = String → Option String

-- `_env`: an empty value counts as none.
unfoldable pub env : Variables → String → String → String
env vars name default = elim (vars name) [
  | some value ↦ if str_eq value "" then default else value
  | none ↦ default
]

-- `_int`, from the text of the default.
unfoldable pub int_env : Variables → String → String → Result ℤ
unfolding env int_of_text
int_env vars name default = elim (int_of_text (env vars name default)) [
  | some n ↦ ok n
  | none ↦ err value_error
]

abbrev pub not_blank : List String → List String
not_blank [] = []
not_blank (item ∷ rest) =
    let kept = not_blank rest in if str_eq (strip item) "" then kept else strip item ∷ kept

-- `_csv`
unfoldable pub csv : Variables → String → String → List String
unfolding env split strip
csv vars name default = not_blank (split b',' (env vars name default))

pub record PostgresConfig : Type 0 where
  pub host : String
  pub port : ℤ
  pub database : String
  pub user : String
  pub password : String

-- `__repr__`, which keeps the password out. `show` is Python's `repr` of a text and `number` its `str`
-- of an integer.
unfoldable pub shown : (show : String → String) → (number : ℤ → String) → PostgresConfig → String
shown show number p =
    "PostgresConfig(host="
    <> (show p.host
        <> (", port="
            <> (number p.port
                <> (", database="
                    <> (show p.database <> (", user=" <> (show p.user <> ", password='***')")))))))

-- `dsn`
unfoldable pub dsn : (number : ℤ → String) → PostgresConfig → String
dsn number p =
    "host="
    <> (p.host
        <> (" port="
            <> (number p.port
                <> (" dbname="
                    <> (p.database <> (" user=" <> (p.user <> (" password=" <> p.password))))))))

pub record Config : Type 0 where
  pub source : String
  pub binance_hosts : List String
  pub symbols : List String
  pub interval_seconds : ℤ
  pub backfill_minutes : ℤ
  pub fallback_after_failures : ℤ
  pub http_timeout_seconds : ℤ
  pub max_retries : ℤ
  pub fx_base : String
  pub fx_quote : String
  pub fx_refresh_seconds : ℤ
  pub postgres : PostgresConfig
  pub metrics_port : ℤ
  pub log_level : String

unfoldable pub from_env : Variables → Result Config
unfolding int_env csv env lower upper
from_env vars = do
  interval ← int_env vars "INGEST_INTERVAL_SECONDS" "20"
  backfill ← int_env vars "BACKFILL_MINUTES" "180"
  fallback ← int_env vars "INGEST_FALLBACK_AFTER_FAILURES" "3"
  timeout ← int_env vars "INGEST_HTTP_TIMEOUT_SECONDS" "15"
  retries ← int_env vars "INGEST_MAX_RETRIES" "4"
  refresh ← int_env vars "FX_REFRESH_SECONDS" "900"
  port ← int_env vars "POSTGRES_PORT" "5432"
  metrics ← int_env vars "INGESTION_METRICS_PORT" "8000"
  ok (record {
    source = lower (env vars "INGEST_SOURCE" "binance");
    binance_hosts = csv vars "BINANCE_HOSTS" "https://api.binance.com";
    symbols = map upper (csv vars "SYMBOLS" "ETHUSDT");
    interval_seconds = interval;
    backfill_minutes = backfill;
    fallback_after_failures = fallback;
    http_timeout_seconds = timeout;
    max_retries = retries;
    fx_base = upper (env vars "FX_BASE" "USD");
    fx_quote = upper (env vars "FX_QUOTE" "KES");
    fx_refresh_seconds = refresh;
    postgres = record {
      host = env vars "POSTGRES_HOST" "postgres";
      port = port;
      database = env vars "POSTGRES_DB" "crypto";
      user = env vars "POSTGRES_USER" "crypto_app";
      password = env vars "POSTGRES_PASSWORD" "";
    };
    metrics_port = metrics;
    log_level = upper (env vars "LOG_LEVEL" "INFO");
  })

abbrev pub is_empty {ℓ} : {A : Type ℓ} → List A → Bool
is_empty [] = true
is_empty (_ ∷ _) = false

unfoldable pub validate : Config → Result (Unit {0})
unfolding elem
validate c = do
  raise_if (not (elem c.source ("binance" ∷ "replay" ∷ []))) value_error
  raise_if (is_empty c.symbols) value_error
  raise_if (ltb_ℤ c.interval_seconds (pos 1)) value_error
  raise_if (ltb_ℤ c.backfill_minutes (pos 0)) value_error
  raise_if (str_eq c.source "binance" && is_empty c.binance_hosts) value_error
