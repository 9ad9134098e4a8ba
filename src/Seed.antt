-- ===== src/Seed.antt =====
-- scripts/ci_seed_clickhouse.py: the schema and the fixtures that CI puts into a bare warehouse.
pub mod Clean
pub mod Fixture
pub mod Sent
pub mod Seeded
use Prim.Native.Char.{Char, code}
use Prim.Native.String.{◌++◌ as ◌<>◌}
use crypto_analytics_platfor.Base.{
  ℕ, zero, suc, ◌+◌, ◌*◌, Bool, true, false, ◌&&◌, String, List, [], ◌∷◌, ◌++◌, Option, none, some,
  pos, negsuc, ◌==◌, if◌then◌else◌, length,
}
use crypto_analytics_platfor.Base.Int.{ℤ, ◌+ℤ◌, leb_ℤ, pos_part}
use crypto_analytics_platfor.Base.Result.{Result, ok, err, runtime_error, value_error}
use crypto_analytics_platfor.Base.Result
use crypto_analytics_platfor.Base.Strings.{split, strip, is_space, starts_with, strip_left, elem}
use crypto_analytics_platfor.Configuration.{Variables, not_blank}
use crypto_analytics_platfor.Datetime.{Datetime, minute, floor_minute, minus, plus, to_ms}
use crypto_analytics_platfor.Decimal.{Decimal}
use crypto_analytics_platfor.Decimal.Literal.{int_of_text}
use crypto_analytics_platfor.Models.{Candle, validate_candle}
use crypto_analytics_platfor.Pipeline.{Task, ◌>>=◌, ◌>>◌, pure, lift}
use crypto_analytics_platfor.Sources.Grid.{minute_ms}
use crypto_analytics_platfor.Sources.Replay.{Floats, candle_for}

-- What the script calls: the HTTP interface of ClickHouse, which gives a status and a text, the clock,
-- the files of the schema with their names in sorted order, and Python's texts of values. `arrival` is
-- the text of a moment in milliseconds, to the millisecond.
pub record Host : Type 1 where
  pub World : Type 0
  pub post : String → World → Result (ℕ × String) × World
  pub now : World → Datetime × World
  pub init_files : List (String × String)
  pub decimal : Decimal → String
  pub stamp : Datetime → String
  pub arrival : ℤ → Result String
  pub number : ℤ → String

-- SYMBOLS and MINUTES of the module.
pub record SeedSettings : Type 0 where
  pub symbols : List String
  pub minutes : ℤ

abbrev pub value_or : Variables → String → String → String
value_or vars name default = elim (vars name) [ some value ↦ value | none ↦ default ]

unfoldable pub read_settings : Variables → Result SeedSettings
unfolding int_of_text split
read_settings vars = elim (int_of_text (value_or vars "CI_FIXTURE_MINUTES" "240")) [
  | some n ↦ ok (record {
    symbols = not_blank (split b',' (value_or vars "SYMBOLS" "ETHUSDT,BTCUSDT"));
    minutes = n;
  })
  | none ↦ err value_error
]

-- Whether white space and then two dashes stand here: `\s*--`.
unfoldable pub opens_comment : String → Bool
unfolding starts_with strip_left
opens_comment s = starts_with (strip_left s) "--"

-- Where the substitution of the comments is in the text: at the start of a line, inside a line, in the
-- white space before a comment that it removes, or in the comment itself.
pub data Place : Type 0 where
  line_start inside_line blanks comment : Place

abbrev pub is_newline : Char → Bool
is_newline c = code c == 10

abbrev pub place_after : Char → Place
place_after c = if is_newline c then line_start else inside_line

-- `re.sub(r"^\s*--.*$", "", text, flags=re.MULTILINE)`
unfoldable pub without_comments : Place → String → String
unfolding opens_comment
without_comments place String.[] = String.[]
without_comments line_start (String.◌∷◌ c s) =
    let dropped = without_comments (if is_space c then blanks else comment) s in
    let kept = String.◌∷◌ c (without_comments (place_after c) s) in
    if opens_comment (String.◌∷◌ c s) then dropped else kept
without_comments inside_line (String.◌∷◌ c s) = String.◌∷◌ c (without_comments (place_after c) s)
without_comments blanks (String.◌∷◌ c s) =
    without_comments (if is_space c then blanks else comment) s
without_comments comment (String.◌∷◌ c s) =
    let next_line = String.◌∷◌ c (without_comments line_start s) in
    let dropped = without_comments comment s in if is_newline c then next_line else dropped

-- `statements`
unfoldable pub statements : String → List String
unfolding without_comments split
statements sql_text = not_blank (split b';' (without_comments line_start sql_text))

-- `separator.join(parts)`
unfoldable pub joined_by : String → List String → String
joined_by separator [] = ""
joined_by separator (part ∷ []) = part
joined_by separator (part ∷ (next ∷ parts)) =
    part <> (separator <> joined_by separator (next ∷ parts))

-- The version of a row.
unfoldable pub lsn : ℕ → ℕ → ℕ
lsn index symbol_index = 1000000 + index * 10 + symbol_index

abbrev pub insert_candles : String
insert_candles =
    "INSERT INTO raw.market_candles_1m (symbol, open_time, close_time, open_price, high_price, low_price, close_price, volume, quote_volume, trade_count, taker_buy_base, taker_buy_quote, source, ingested_at, _op, _lsn, _source_ts_ms, _kafka_partition, _kafka_offset, _cdc_arrived_at) FORMAT TabSeparated\n"

-- The statements that are written out in the script, by what they do; their texts, less the indentation.
abbrev pub insert_duplicates : String
insert_duplicates =
    "INSERT INTO raw.market_candles_1m SELECT symbol, open_time, close_time, open_price, high_price, low_price, close_price, volume, quote_volume, trade_count, taker_buy_base, taker_buy_quote, source, ingested_at, 'u' AS _op, _lsn + 500000 AS _lsn, _source_ts_ms + 1000, _kafka_partition, _kafka_offset + 100000, _cdc_arrived_at FROM raw.market_candles_1m ORDER BY open_time DESC LIMIT 50"

abbrev pub insert_symbols : String
insert_symbols =
    "INSERT INTO raw.symbols (symbol, base_asset, quote_asset, display_name, is_active, created_at, updated_at, _op, _lsn, _source_ts_ms, _kafka_partition, _kafka_offset) VALUES ('ETHUSDT','ETH','USDT','Ethereum / Tether',1,now(),now(),'r',1,1,0,0), ('BTCUSDT','BTC','USDT','Bitcoin / Tether',1,now(),now(),'r',2,2,0,1)"

abbrev pub insert_rates : String
insert_rates =
    "INSERT INTO raw.fx_rates (base, quote, rate, as_of, source, updated_at, _op, _lsn, _source_ts_ms, _kafka_partition, _kafka_offset) VALUES ('USD','KES',128.90, now() - toIntervalDay(3),'ci-fixture',now(),'c',10,10,0,0), ('USD','KES',129.15, now() - toIntervalDay(2),'ci-fixture',now(),'u',11,11,0,1), ('USD','KES',129.34, now() - toIntervalDay(1),'ci-fixture',now(),'u',12,12,0,2)"

abbrev pub count_all : String
count_all = "SELECT count() FROM raw.market_candles_1m"

abbrev pub count_deduped : String
count_deduped = "SELECT count() FROM raw.market_candles_1m FINAL WHERE _op != 'd'"

-- REQUIRES_BROKER
abbrev pub requires_broker : List String
requires_broker = "03-kafka-engines.sql" ∷ "04-materialized-views.sql" ∷ []

-- `if int(total) <= int(deduped): return 1`
abbrev pub seeding_code : ℤ → ℤ → ℕ
seeding_code total deduped = if leb_ℤ total deduped then 1 else 0

module _ (H : Host) (F : Floats) where
  open H use {World}

  -- The world, and the statements that were accepted with what was answered, oldest first.
  pub record Seeding : Type 0 where
    pub world : World
    pub accepted : List (String × String)

  abbrev pub accepted_by : String → Seeding → Result (ℕ × String) × World → Result String × Seeding
  accepted_by sql s (err e, w) = (err e, record s { world = w })
  accepted_by sql s (ok (status, text), w) =
      if status == 200
      then (ok text, record { world = w; accepted = s.accepted ++ ((sql, text) ∷ []) })
      else (err runtime_error, record s { world = w })

  unfoldable pub execute : String → Task Seeding String
  execute sql s = accepted_by sql s (H.post sql s.world)

  unfoldable pub execute_all : List String → Task Seeding (Unit {0})
  unfolding execute
  execute_all [] = pure tt
  execute_all (sql ∷ sqls) = execute sql >>= λ text. execute_all sqls

  unfoldable pub apply_files : List (String × String) → Task Seeding (Unit {0})
  unfolding execute_all statements elem
  apply_files [] = pure tt
  apply_files ((name, text) ∷ files) =
      if elem name requires_broker
      then apply_files files
      else execute_all (statements text) >> apply_files files

  unfoldable pub apply_schema : Task Seeding (Unit {0})
  unfolding apply_files
  apply_schema = apply_files H.init_files

  unfoldable pub seed_reference : Task Seeding (Unit {0})
  unfolding execute_all
  seed_reference = execute_all (insert_symbols ∷ insert_rates ∷ [])

  -- The line of a candle.
  unfoldable pub line_of : ℕ → ℕ → ℤ → Candle → Result String
  unfolding joined_by lsn ◌+ℤ◌
  line_of symbol_index index open_ms c = Result.◌>>=◌ (H.arrival (open_ms +ℤ pos 61200)) λ arrived.
      ok (
        joined_by "\t" (
          c.symbol
          ∷ H.stamp c.open_time
          ∷ H.stamp c.close_time
          ∷ H.decimal c.open_price
          ∷ H.decimal c.high_price
          ∷ H.decimal c.low_price
          ∷ H.decimal c.close_price
          ∷ H.decimal c.volume
          ∷ H.decimal c.quote_volume
          ∷ H.number c.trade_count
          ∷ H.decimal c.taker_buy_base
          ∷ H.decimal c.taker_buy_quote
          ∷ c.source
          ∷ H.stamp c.open_time
          ∷ "c"
          ∷ H.number (pos (lsn index symbol_index))
          ∷ H.number (open_ms +ℤ pos 60000)
          ∷ "0"
          ∷ H.number (pos index)
          ∷ arrived
          ∷ []))

  unfoldable pub read_clock : Task Seeding Datetime
  read_clock s = let (t, w) = H.now s.world in (ok t, record s { world = w })

  -- `source.candle_for(symbol, open_ms)`: the bar, and its self-check at a reading of the clock.
  unfoldable pub checked_bar : String → ℤ → Task Seeding Candle
  unfolding candle_for read_clock validate_candle
  checked_bar symbol open_ms = do
    candle ← lift (candle_for F symbol open_ms)
    now ← read_clock
    lift (validate_candle candle now)
    pure candle

  -- `for index in range(MINUTES)`, from an index on, with the number of minutes that are left.
  unfoldable pub symbol_rows : ℤ → String → ℕ → ℕ → ℕ → Task Seeding (List String)
  unfolding line_of checked_bar ◌+ℤ◌
  symbol_rows start_ms symbol symbol_index index zero = pure []
  symbol_rows start_ms symbol symbol_index index (suc left) =
      let open_ms = start_ms +ℤ pos (index * minute_ms) in
      let later = symbol_rows start_ms symbol symbol_index (suc index) left in
      checked_bar symbol open_ms >>= λ candle.
      lift (line_of symbol_index index open_ms candle) >>= λ row.
      later >>= λ rows. pure (row ∷ rows)

  -- `for symbol_index, symbol in enumerate(SYMBOLS)`
  unfoldable pub all_rows : ℤ → ℕ → ℕ → List String → Task Seeding (List String)
  unfolding symbol_rows
  all_rows start_ms minutes symbol_index [] = pure []
  all_rows start_ms minutes symbol_index (symbol ∷ symbols) =
      let later = all_rows start_ms minutes (suc symbol_index) symbols in
      symbol_rows start_ms symbol symbol_index 0 minutes >>= λ rows.
      later >>= λ others. pure (rows ++ others)

  -- `end - timedelta(minutes=MINUTES)`
  unfoldable pub minutes_before : Datetime → ℤ → Result Datetime
  minutes_before end (pos n) = minus end (n * minute)
  minutes_before end (negsuc n) = plus end (suc n * minute)

  unfoldable pub seed_candles : SeedSettings → Task Seeding ℕ
  unfolding read_clock minutes_before all_rows execute joined_by floor_minute to_ms
  seed_candles settings = do
    now ← read_clock
    start ← lift (minutes_before (floor_minute now) settings.minutes)
    rows ← all_rows (to_ms start) (pos_part settings.minutes) 0 settings.symbols
    text ← execute (insert_candles <> joined_by "\n" rows)
    pure (length rows)

  unfoldable pub seed_duplicates : Task Seeding ℕ
  unfolding execute
  seed_duplicates = do text ← execute insert_duplicates; pure 50

  -- `int(text)` of an answer that was stripped.
  unfoldable pub int_answer : String → Result ℤ
  unfolding int_of_text strip
  int_answer text = elim (int_of_text (strip text)) [ some n ↦ ok n | none ↦ err value_error ]

  -- The end of `main`: the exit code, from the rows counted with and without their duplicates.
  unfoldable pub check_duplicates : Task Seeding ℕ
  unfolding execute int_answer
  check_duplicates = do
    total ← execute count_all
    deduped ← execute count_deduped
    all_of_them ← lift (int_answer total)
    distinct ← lift (int_answer deduped)
    pure (seeding_code all_of_them distinct)

  -- `main`: its exit code.
  unfoldable pub main : SeedSettings → Task Seeding ℕ
  unfolding apply_schema seed_reference seed_candles seed_duplicates check_duplicates
  main settings = do
    apply_schema
    seed_reference
    count ← seed_candles settings
    dupes ← seed_duplicates
    check_duplicates
