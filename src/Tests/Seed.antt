-- ===== src/Tests/Seed.antt =====
-- The seeding script against a warehouse that answers every statement.
use crypto_analytics_platfor.Datetime.{plus}
use crypto_analytics_platfor.Decimal.{high_side, low_side}
use crypto_analytics_platfor.Datetime.{minus}
use crypto_analytics_platfor.Pipeline.{◌>>=◌}
use crypto_analytics_platfor.Base.Strings.{strip}
use crypto_analytics_platfor.Base.{
  ℕ, ◌+◌, ◌≡◌, refl, String, [], ◌∷◌, pos, length, some, none, if◌then◌else◌,
}
use crypto_analytics_platfor.Base.Result.{ok}
use crypto_analytics_platfor.Base.Texts.{str_eq}
use crypto_analytics_platfor.Configuration.{Variables}
use crypto_analytics_platfor.Base.Strings.{strip}
use crypto_analytics_platfor.Pipeline.Rules.{Ensures}
use crypto_analytics_platfor.Seed.{
  Host, SeedSettings, Seeding, read_settings, line_start, without_comments, statements, lsn,
  count_all, count_deduped, main,
}
use crypto_analytics_platfor.Seed.Clean.{IsClean, without_comments-IsClean}
use crypto_analytics_platfor.Seed.Seeded.{IsSeeded, main-IsSeeded}
use crypto_analytics_platfor.Tests.Replay.{whole_numbers}
use crypto_analytics_platfor.Tests.Worlds.{at}

abbrev schema_file : String
schema_file =
    "-- It's a table; with a comment.\nCREATE TABLE t (a Int8);\n\n  -- And a view.\nCREATE VIEW v AS SELECT a -- inside\nFROM t;\n"

-- The comment at the start of a line goes, and the one inside a line stays.
cuts_statements :
    statements schema_file
    ≡ "CREATE TABLE t (a Int8)" ∷ "CREATE VIEW v AS SELECT a -- inside\nFROM t" ∷ []
unfolding statements str_eq strip
cuts_statements = refl

without_comments-IsClean_example : IsClean (without_comments line_start schema_file)
without_comments-IsClean_example = without_comments-IsClean schema_file

abbrev reply_text : String → String
reply_text sql =
    if str_eq sql count_all then "56\n" else if str_eq sql count_deduped then "6\n" else ""

abbrev host : Host
host = record {
  World = ℕ;
  post = λ sql w. (ok (200, reply_text sql), w + 1);
  now = λ w. (at 9 + 5, w);
  init_files = ("01-database.sql", schema_file) ∷ ("03-kafka-engines.sql", "CREATE TABLE k") ∷ [];
  decimal = λ d. "1";
  stamp = λ t. "now";
  arrival = λ ms. ok "now";
  number = λ n. "n";
}

abbrev settings : SeedSettings
settings = record { symbols = "ETHUSDT" ∷ "BTCUSDT" ∷ []; minutes = pos 3 }

abbrev session : Seeding host whole_numbers
session = record { world = 0; accepted = [] }

main-IsSeeded_example :
    Ensures
      (IsSeeded host whole_numbers settings session)
      (main host whole_numbers settings session)
main-IsSeeded_example = main-IsSeeded host whole_numbers settings session

-- Two statements of the schema, two of reference rows, the fixture, the duplicates and two counts.
seeds :
    ((main host whole_numbers settings session).0 ≡ ok 0)
    × (length (main host whole_numbers settings session).1.accepted ≡ 8)
unfolding main str_eq ◌>>=◌ minus low_side high_side plus
seeds = (refl, refl)

-- An eleventh symbol shares its version with the first one's next minute.
lsn_collides : lsn 0 10 ≡ lsn 1 0
unfolding lsn
lsn_collides = refl

abbrev no_symbols : Variables
no_symbols name = if str_eq name "SYMBOLS" then some "" else none

-- An empty SYMBOLS leaves no symbol: there is no default for it here.
reads_none : read_settings no_symbols ≡ ok (record { symbols = []; minutes = pos 240 })
unfolding read_settings str_eq strip
reads_none = refl
