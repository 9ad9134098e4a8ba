-- ===== src/Tests/Main.antt =====
-- The program from its environment variables, over a scripted world.
use crypto_analytics_platfor.Db.{same_key}
use crypto_analytics_platfor.Db.Statements.{contains_key, upsert_row}
use crypto_analytics_platfor.Decimal.{high_side, low_side}
use crypto_analytics_platfor.Datetime.{floor_minute, minus, plus}
use crypto_analytics_platfor.Sources.Grid.{last_closed_minute}
use crypto_analytics_platfor.Service.{◌>>=◌}
use crypto_analytics_platfor.Base.{
  ◌≡◌, refl, sym, ◌∙◌, ◌↔◌, true, [], Option, none, some, pos, arith, ℕ, length, if◌then◌else◌,
}
use mathlib.Core.Path.{subst}
use crypto_analytics_platfor.Base.Int.{◌≤ℤ◌}
use crypto_analytics_platfor.Base.Result.{Result, ok, ok-injective}
use crypto_analytics_platfor.Base.Texts.{str_eq}
use crypto_analytics_platfor.Configuration.{Config, Variables, from_env}
use crypto_analytics_platfor.Configuration.Valid.{IsValid}
use crypto_analytics_platfor.Service.{Service}
use crypto_analytics_platfor.Service.Main.{Outside, construct, is_once, main}
use crypto_analytics_platfor.Service.Trusted.{
  IsStartable, Refuses, construct_iff, main_refused, EndsTrusted, main-Trusted,
}
use crypto_analytics_platfor.Sources.Live.{Live}
use crypto_analytics_platfor.Tests.Configuration.{defaults}
use crypto_analytics_platfor.Tests.Replay.{whole_numbers, world}
use crypto_analytics_platfor.Tests.Service.{scripted-IsTicking}
use crypto_analytics_platfor.Tests.Worlds.{World, scripted, exact_driver}

abbrev outside : Outside World
outside = record {
  world = world;
  trace = [];
  tables = record { symbols = []; candles = []; fx_rates = []; rejects = [] };
}

-- One shot over the generator, for two minutes.
abbrev one_shot : Variables
one_shot name =
    if str_eq name "INGEST_SOURCE"
    then some "Replay"
    else if str_eq name "INGEST_ONCE"
    then some "Yes"
    else if str_eq name "BACKFILL_MINUTES"
    then some "2"
    else none

main-Trusted_example :
    EndsTrusted scripted whole_numbers
      (λ w. w)
      exact_driver
      (λ level. true)
      (main scripted whole_numbers (λ w. w) exact_driver (λ level. true) one_shot 3 2 outside)
main-Trusted_example =
    main-Trusted scripted whole_numbers (λ w. w) exact_driver (λ level. true) one_shot 3 2 outside
      scripted-IsTicking (omega arith) tt

is_once_yes : is_once one_shot ≡ true
unfolding is_once str_eq
is_once_yes = refl

construct_iff_example :
    ((s : Service World Live) × (construct defaults outside ≡ ok s)) ↔ IsValid defaults
construct_iff_example = construct_iff defaults outside

abbrev never : Variables
never name = if str_eq name "INGEST_INTERVAL_SECONDS" then some "0" else none

never_read : from_env never ≡ ok (record defaults { interval_seconds = pos 0 })
unfolding from_env str_eq
never_read = refl

never-IsStartable : IsStartable (λ level. true) never → ⊥
never-IsStartable s =
    let same = ok-injective _ _ (sym never_read ∙ s.read) in
    let positive =
      subst (λ (c : Config). pos 1 ≤ℤ c.interval_seconds) (sym same) s.valid.interval in
    omega (arith, positive)

main_refused_example :
    Refuses scripted whole_numbers
      (λ w. w)
      exact_driver
      (λ level. true)
      outside
      (main scripted whole_numbers (λ w. w) exact_driver (λ level. true) never 3 2 outside)
main_refused_example =
    main_refused scripted whole_numbers (λ w. w) exact_driver (λ level. true) never 3 2 outside
      never-IsStartable

abbrev rows_after : Option (Result ℕ × Outside World) → ℕ
rows_after none = 0
rows_after (some (r, after)) = length after.tables.candles

-- An INGEST_ONCE of "Yes" and a budget of two minutes leave two bars of the generator.
one_shot_rows :
    rows_after
      (main scripted whole_numbers (λ w. w) exact_driver (λ level. true) one_shot 3 2 outside)
    ≡ 2
unfolding main str_eq ◌>>=◌ last_closed_minute minus floor_minute plus low_side high_side
    exact_driver contains_key upsert_row same_key
one_shot_rows = refl
