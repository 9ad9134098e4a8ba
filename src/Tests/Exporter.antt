-- ===== src/Tests/Exporter.antt =====
-- A scrape with the database down, an empty warehouse and a connector that is not registered.
use crypto_analytics_platfor.Exporter.{clear}
use crypto_analytics_platfor.Base.{ℕ, ◌≡◌, refl, [], ◌∷◌, none, true}
use crypto_analytics_platfor.Base.Int.{pos_part}
use crypto_analytics_platfor.Base.Result.{database_error, type_error}
use crypto_analytics_platfor.Base.Texts.{str_eq}
use crypto_analytics_platfor.Exporter.{
  Targets, Exporter, done, raised, other, table_of, ◌>>=◌, set, call,
}
use crypto_analytics_platfor.Exporter.Connect.{scrape_once, add_state}
use crypto_analytics_platfor.Exporter.Guarded.{IsReported, scrape_once-IsReported}

abbrev targets : Targets
targets = record {
  State = ℕ;
  Float = ℕ;
  zero = 0;
  one = 1;
  of_count = λ n. n;
  of_int = pos_part;
  to_int = λ x. raised (other type_error);
  float_of = λ s. none;
  is_nonnegative = λ x. true;
  open_postgres = λ s. (raised (other database_error), s);
  candle_stats = λ s. (done (0, 0), s);
  fx_stats = λ s. (done (0, 0), s);
  reject_count = λ s. (done 0, s);
  slots = λ s. (done [], s);
  window_rows = λ s. (raised (other database_error), s);
  post = λ sql s. (done "", s);
  label_of = λ value. raised (other type_error);
  get_status = λ s. (done (record { status_code = 404; document = none }), s);
}

abbrev idle : Exporter ℕ ℕ
idle = record { world = 0; gauges = λ g. []; errors = [] }

cuts_rows : table_of "a\t1\nb\t2\n" ≡ ("a" ∷ "1" ∷ []) ∷ ("b" ∷ "2" ∷ []) ∷ []
unfolding table_of str_eq
cuts_rows = refl

counts_states :
    add_state "RUNNING" (add_state "FAILED" (add_state "RUNNING" []))
    ≡ ("RUNNING", 2) ∷ ("FAILED", 1) ∷ []
unfolding add_state str_eq
counts_states = refl

counts_the_failure : (scrape_once targets "crypto-oltp-cdc" idle).errors ≡ "postgres" ∷ []
unfolding scrape_once str_eq ◌>>=◌ call set clear
counts_the_failure = refl

scrape_once-IsReported_example :
    IsReported targets "crypto-oltp-cdc" idle (scrape_once targets "crypto-oltp-cdc" idle)
scrape_once-IsReported_example = scrape_once-IsReported targets "crypto-oltp-cdc" idle
