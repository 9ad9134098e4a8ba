-- ===== src/Seed/Fixture.antt =====
-- The rows of the fixture: which bars they are, and how many.
use crypto_analytics_platfor.Base.{
  ℕ, zero, suc, ◌*◌, ◌≡◌, refl, sym, ap, ◌∙◌, String, List, [], ◌∷◌, ◌++◌, arith, length,
  length-append,
}
use crypto_analytics_platfor.Base.Int.{ℤ, pos, ◌+ℤ◌}
use crypto_analytics_platfor.Base.Result.{Result, ok, err}
use crypto_analytics_platfor.Models.{Candle, validate_candle}
use crypto_analytics_platfor.Pipeline.{lift}
use crypto_analytics_platfor.Pipeline.Rules.{Ensures, bind-Ensures}
use crypto_analytics_platfor.Sources.Grid.{minute_ms}
use crypto_analytics_platfor.Sources.Replay.{Floats, candle_for}
use crypto_analytics_platfor.Seed.{
  Host, Seeding, read_clock, line_of, checked_bar, symbol_rows, all_rows,
}

module _ (H : Host) (F : Floats) where
  -- The bar of a minute, which passed the gate at a reading of the clock.
  pub record IsChecked (symbol : String) (open_ms : ℤ) (c : Candle) : Type 0 where
    pub made : candle_for F symbol open_ms ≡ ok c
    pub at : H.World
    pub passed : validate_candle c (H.now at).0 ≡ ok tt

  -- The lines of one symbol, one for each minute from an index on.
  abbrev pub AreBars : ℤ → String → ℕ → ℕ → ℕ → List String → Type 0
  AreBars start_ms symbol symbol_index index zero rows = rows ≡ []
  AreBars start_ms symbol symbol_index index (suc left) rows =
      (row : String) × (later : List String) × (c : Candle) × IsChecked symbol
        (start_ms +ℤ pos (index * minute_ms)) c
      × (line_of H F symbol_index index (start_ms +ℤ pos (index * minute_ms)) c ≡ ok row)
      × AreBars start_ms symbol symbol_index (suc index) left later
      × (rows ≡ row ∷ later)

  -- The lines of all symbols, one symbol after the other.
  abbrev pub AreFixture : ℤ → ℕ → ℕ → List String → List String → Type 0
  AreFixture start_ms minutes symbol_index [] rows = rows ≡ []
  AreFixture start_ms minutes symbol_index (symbol ∷ symbols) rows =
      (own others : List String) × AreBars start_ms symbol symbol_index 0 minutes own
      × AreFixture start_ms minutes (suc symbol_index) symbols others
      × (rows ≡ own ++ others)

  -- A call that leaves what was accepted alone, and whose value is so.
  abbrev pub Quietly : {A : Type 0} → (A → Type 0) → Seeding H F → A → Seeding H F → Type 0
  Quietly P before a s = (s.accepted ≡ before.accepted) × P a

  lifted :
      {A : Type 0} (r : Result A) (s : Seeding H F) → Ensures (Quietly (λ a. r ≡ ok a) s) (lift r s)
  lifted (ok a) s = (refl, refl)
  lifted (err e) s = tt

  checked_bar-IsChecked :
      (symbol : String) (open_ms : ℤ) (s : Seeding H F)
      → Ensures (Quietly (IsChecked symbol open_ms) s) (checked_bar H F symbol open_ms s)
  unfolding checked_bar read_clock
  checked_bar-IsChecked symbol open_ms s =
      let Wanted = Quietly (IsChecked symbol open_ms) s in
      bind-Ensures (Quietly (λ c. candle_for F symbol open_ms ≡ ok c) s) Wanted _ _ s
        (lifted (candle_for F symbol open_ms) s)
        λ c s1 (same1, made).
          bind-Ensures (λ now s'. (s'.accepted ≡ s1.accepted) × (now ≡ (H.now s1.world).0)) Wanted
            (read_clock H F) _ s1 (refl, refl)
            λ now s2 (same2, read).
              bind-Ensures (Quietly (λ u. validate_candle c now ≡ ok u) s2) Wanted _ _ s2
                (lifted (validate_candle c now) s2)
                λ u s3 (same3, passed). (
                  same3 ∙ same2 ∙ same1,
                  record {
                    made = made;
                    at = s1.world;
                    passed = ap (validate_candle c) (sym read) ∙ passed;
                  },
                )

  symbol_rows-AreBars :
      (start_ms : ℤ) (symbol : String) (symbol_index index left : ℕ) (s : Seeding H F)
      → Ensures
          (Quietly (AreBars start_ms symbol symbol_index index left) s)
          (symbol_rows H F start_ms symbol symbol_index index left s)
  unfolding symbol_rows
  symbol_rows-AreBars start_ms symbol symbol_index index zero s = (refl, refl)
  symbol_rows-AreBars start_ms symbol symbol_index index (suc left) s =
      let open_ms = start_ms +ℤ pos (index * minute_ms) in
      let Wanted = Quietly (AreBars start_ms symbol symbol_index index (suc left)) s in
      bind-Ensures (Quietly (IsChecked symbol open_ms) s) Wanted (checked_bar H F symbol open_ms) _
        s (checked_bar-IsChecked symbol open_ms s)
        λ c s1 (same1, checked).
          bind-Ensures (Quietly (λ row. line_of H F symbol_index index open_ms c ≡ ok row) s1)
            Wanted _ _ s1 (lifted (line_of H F symbol_index index open_ms c) s1)
            λ row s2 (same2, line).
              bind-Ensures (Quietly (AreBars start_ms symbol symbol_index (suc index) left) s2)
                Wanted (symbol_rows H F start_ms symbol symbol_index (suc index) left) _ s2
                (symbol_rows-AreBars start_ms symbol symbol_index (suc index) left s2)
                λ later s3 (same3, bars).
                  (same3 ∙ same2 ∙ same1, (row, later, c, checked, line, bars, refl))

  pub all_rows-AreFixture :
      (start_ms : ℤ) (minutes symbol_index : ℕ) (symbols : List String) (s : Seeding H F)
      → Ensures
          (Quietly (AreFixture start_ms minutes symbol_index symbols) s)
          (all_rows H F start_ms minutes symbol_index symbols s)
  unfolding all_rows
  all_rows-AreFixture start_ms minutes symbol_index [] s = (refl, refl)
  all_rows-AreFixture start_ms minutes symbol_index (symbol ∷ symbols) s =
      let Wanted = Quietly (AreFixture start_ms minutes symbol_index (symbol ∷ symbols)) s in
      bind-Ensures (Quietly (AreBars start_ms symbol symbol_index 0 minutes) s) Wanted
        (symbol_rows H F start_ms symbol symbol_index 0 minutes) _ s
        (symbol_rows-AreBars start_ms symbol symbol_index 0 minutes s)
        λ own s1 (same1, bars).
          bind-Ensures (Quietly (AreFixture start_ms minutes (suc symbol_index) symbols) s1) Wanted
            (all_rows H F start_ms minutes (suc symbol_index) symbols) _ s1
            (all_rows-AreFixture start_ms minutes (suc symbol_index) symbols s1)
            λ others s2 (same2, rest). (same2 ∙ same1, (own, others, bars, rest, refl))

  length-AreBars :
      (start_ms : ℤ) (symbol : String) (symbol_index index left : ℕ) (rows : List String)
      → AreBars start_ms symbol symbol_index index left rows
      → length rows ≡ left
  length-AreBars start_ms symbol symbol_index index zero rows h = ap length h
  length-AreBars start_ms symbol symbol_index index (suc left) rows
        (row, later, c, checked, line, bars, e) =
      ap length e ∙ ap suc (length-AreBars start_ms symbol symbol_index (suc index) left later bars)

  pub length-AreFixture :
      (start_ms : ℤ) (minutes symbol_index : ℕ) (symbols rows : List String)
      → AreFixture start_ms minutes symbol_index symbols rows
      → length rows ≡ length symbols * minutes
  length-AreFixture start_ms minutes symbol_index [] rows h = ap length h ∙ omega arith
  length-AreFixture start_ms minutes symbol_index (symbol ∷ symbols) rows
        (own, others, bars, rest, e) =
      ap length e
      ∙ length-append own others
      ∙ omega (
        arith,
        length-AreBars start_ms symbol symbol_index 0 minutes own bars,
        length-AreFixture start_ms minutes (suc symbol_index) symbols others rest,
      )
