-- ===== src/Seed/Seeded.antt =====
-- What the seeding script has sent when it ends, and what its exit code says.
use Prim.Native.String.{◌++◌ as ◌<>◌}
use crypto_analytics_platfor.Base.{
  ℕ, ◌*◌, ◌≡◌, refl, ap, ◌∙◌, ◌↔◌, String, List, [], ◌∷◌, ◌++◌, inl, inr, arith, length, map,
  Bool-cases,
}
use crypto_analytics_platfor.Base.Int.{ℤ, ◌<ℤ◌, leb_ℤ, pos_part}
use crypto_analytics_platfor.Base.Result.{ok}
use crypto_analytics_platfor.Datetime.{floor_minute, to_ms}
use crypto_analytics_platfor.Pipeline.{lift}
use crypto_analytics_platfor.Pipeline.Rules.{Ensures, bind-Ensures, lift-Ensures, Ensures-mono}
use crypto_analytics_platfor.Sources.Replay.{Floats}
use crypto_analytics_platfor.Seed.{
  Host, SeedSettings, joined_by, insert_candles, insert_duplicates, insert_symbols, insert_rates,
  count_all, count_deduped, Seeding, execute, execute_all, apply_files, apply_schema,
  seed_reference, all_rows, minutes_before, read_clock, seed_candles, seed_duplicates, int_answer,
  seeding_code, check_duplicates, main,
}
use crypto_analytics_platfor.Seed.Sent.{
  schema_of, sent, Sends, Logged, execute-Logged, Logged-Sends, extended, execute_all-Sends,
  apply_files-Sends,
}
use crypto_analytics_platfor.Seed.Fixture.{
  AreFixture, Quietly, all_rows-AreFixture, length-AreFixture,
}

module _ (H : Host) (F : Floats) where
  -- The fixture: one row for each minute of each symbol, from some start on, each the line of
  -- a bar that passed the gate, in one statement.
  pub record IsFixture (settings : SeedSettings) (sql : String) (count : ℕ) : Type 0 where
    pub start_ms : ℤ
    pub rows : List String
    pub made : AreFixture H F start_ms (pos_part settings.minutes) 0 settings.symbols rows
    pub joined : sql ≡ insert_candles <> joined_by "\n" rows
    pub counted :
        (count ≡ length rows) × (count ≡ length settings.symbols * pos_part settings.minutes)

  clock-Keeps : (s : Seeding H F) → Ensures (λ now s'. s'.accepted ≡ s.accepted) (read_clock H F s)
  unfolding read_clock
  clock-Keeps s = refl

  seed_candles-Sends :
      (settings : SeedSettings) (s : Seeding H F)
      → Ensures
          (λ count s'. (sql : String) × IsFixture settings sql count × Sends H F s (sql ∷ []) s')
          (seed_candles H F settings s)
  unfolding seed_candles
  seed_candles-Sends settings s =
      let minutes = pos_part settings.minutes in
      let Wanted = λ (count : ℕ) (s' : Seeding H F).
        (sql : String) × IsFixture settings sql count × Sends H F s (sql ∷ []) s' in
      bind-Ensures (λ now s'. s'.accepted ≡ s.accepted) Wanted (read_clock H F) _ s (clock-Keeps s)
        λ now s1 same.
          bind-Ensures (λ start s'. s' ≡ s1) Wanted _ _ s1
            (Ensures-mono
              (λ start s'.
                (minutes_before H F (floor_minute now) settings.minutes ≡ ok start) × (s' ≡ s1))
              (λ start s'. s' ≡ s1) _ (λ start s' h. h.1)
              (lift-Ensures (minutes_before H F (floor_minute now) settings.minutes) s1))
            λ start s2 same2.
              bind-Ensures
                (Quietly H F (AreFixture H F (to_ms start) minutes 0 settings.symbols) s2) Wanted
                (all_rows H F (to_ms start) minutes 0 settings.symbols) _ s2
                (all_rows-AreFixture H F (to_ms start) minutes 0 settings.symbols s2)
                λ rows s3 (same3, made).
                  let sql = insert_candles <> joined_by "\n" rows in
                  bind-Ensures (Logged H F sql s3) Wanted (execute H F sql) _ s3
                    (execute-Logged H F sql s3)
                    λ text s4 logged. (
                      sql,
                      record {
                        start_ms = to_ms start;
                        rows = rows;
                        made = made;
                        joined = refl;
                        counted = (
                          refl,
                          length-AreFixture H F (to_ms start) minutes 0 settings.symbols rows made,
                        );
                      },
                      Logged-Sends H F sql text s3 s4 logged
                          ∙ ap
                              (λ (l : List (String × String)).
                                map (λ (entry : String × String). entry.0) l ++ (sql ∷ []))
                              (same3 ∙ ap (λ (t : Seeding H F). t.accepted) same2 ∙ same),
                    )

  -- The counts that the warehouse gave, and what the exit code says of them.
  pub record IsChecked (before : Seeding H F) (code : ℕ) (s : Seeding H F) : Type 0 where
    pub total_text : String
    pub deduped_text : String
    pub total : ℤ
    pub deduped : ℤ
    pub total_read : int_answer H F total_text ≡ ok total
    pub deduped_read : int_answer H F deduped_text ≡ ok deduped
    pub asked :
        s.accepted
        ≡ (before.accepted ++ ((count_all, total_text) ∷ []))
          ++ ((count_deduped, deduped_text) ∷ [])
    pub verdict : (code ≡ 0) ↔ (deduped <ℤ total)

  zero_code : (total deduped : ℤ) → (seeding_code total deduped ≡ 0) ↔ (deduped <ℤ total)
  zero_code total deduped = elim (Bool-cases (leb_ℤ total deduped)) [
    | inl e ↦ rw e (λ h. absurd (cc), λ h. absurd (ground arith))
    | inr e ↦ rw e (λ h. ground arith, λ h. refl)
  ]

  check_duplicates-IsChecked : (s : Seeding H F) → Ensures (IsChecked s) (check_duplicates H F s)
  unfolding check_duplicates
  check_duplicates-IsChecked s =
      bind-Ensures (Logged H F count_all s) (IsChecked s) (execute H F count_all) _ s
        (execute-Logged H F count_all s)
        λ total_text s1 e1.
          bind-Ensures (Logged H F count_deduped s1) (IsChecked s) (execute H F count_deduped) _ s1
            (execute-Logged H F count_deduped s1)
            λ deduped_text s2 e2.
              bind-Ensures (λ total s'. (int_answer H F total_text ≡ ok total) × (s' ≡ s2))
                (IsChecked s) (lift (int_answer H F total_text)) _ s2
                (lift-Ensures (int_answer H F total_text) s2)
                λ total s3 (read, same).
                  bind-Ensures
                    (λ deduped s'. (int_answer H F deduped_text ≡ ok deduped) × (s' ≡ s3))
                    (IsChecked s) (lift (int_answer H F deduped_text)) _ s3
                    (lift-Ensures (int_answer H F deduped_text) s3)
                    λ deduped s4 (read', same'). record {
                      total_text = total_text;
                      deduped_text = deduped_text;
                      total = total;
                      deduped = deduped;
                      total_read = read;
                      deduped_read = read';
                      asked =
                          ap (λ (t : Seeding H F). t.accepted) (same' ∙ same)
                          ∙ e2
                          ∙ ap
                              (λ (l : List (String × String)).
                                l ++ ((count_deduped, deduped_text) ∷ []))
                              e1;
                      verdict = zero_code total deduped;
                    }

  -- What the script has done when it ends with an exit code.
  pub record IsSeeded (settings : SeedSettings) (before : Seeding H F) (code : ℕ) (s : Seeding H F)
      : Type 0 where
    pub fixture_sql : String
    pub count : ℕ
    pub fixture : IsFixture settings fixture_sql count
    pub middle : Seeding H F
    pub filled :
        sent H F middle
        ≡ sent H F before
          ++ (((schema_of H.init_files ++ (insert_symbols ∷ insert_rates ∷ []))
                ++ (fixture_sql ∷ []))
              ++ (insert_duplicates ∷ []))
    pub checked : IsChecked middle code s

  duplicates-Sends :
      (s : Seeding H F)
      → Ensures (λ n s'. Sends H F s (insert_duplicates ∷ []) s') (seed_duplicates H F s)
  unfolding seed_duplicates
  duplicates-Sends s =
      bind-Ensures (Logged H F insert_duplicates s)
        (λ n s'. Sends H F s (insert_duplicates ∷ []) s') (execute H F insert_duplicates) _ s
        (execute-Logged H F insert_duplicates s)
        λ text s1 e. Logged-Sends H F insert_duplicates text s s1 e

  -- If the script ends with an exit code, whatever the warehouse answered: it has had accepted, in
  -- this order, the statements of every schema file that needs no broker, the reference rows, one
  -- insert with a row for each minute of each symbol, each of a bar that passed the gate at a reading
  -- of the clock, and the duplicates; then it has counted the rows
  -- with and without duplicates, and the code is 0 exactly if the duplicates had taken effect.
  pub main-IsSeeded :
      (settings : SeedSettings) (s : Seeding H F)
      → Ensures (IsSeeded settings s) (main H F settings s)
  unfolding main apply_schema seed_reference
  main-IsSeeded settings s =
      let schema = schema_of H.init_files in
      let reference = insert_symbols ∷ (insert_rates ∷ []) in
      bind-Ensures (λ u s'. Sends H F s schema s') (IsSeeded settings s)
        (apply_files H F H.init_files) _ s (apply_files-Sends H F H.init_files s)
        λ u s1 e1.
          bind-Ensures (λ u s'. Sends H F s1 reference s') (IsSeeded settings s)
            (execute_all H F reference) _ s1 (execute_all-Sends H F reference s1)
            λ v s2 e2.
              bind-Ensures
                (λ count s'.
                  (sql : String) × IsFixture settings sql count × Sends H F s2 (sql ∷ []) s')
                (IsSeeded settings s) (seed_candles H F settings) _ s2
                (seed_candles-Sends settings s2)
                λ count s3 (sql, fixture, e3).
                  bind-Ensures (λ n s'. Sends H F s3 (insert_duplicates ∷ []) s')
                    (IsSeeded settings s) (seed_duplicates H F) _ s3 (duplicates-Sends s3)
                    λ n s4 e4.
                      Ensures-mono (IsChecked s4) (IsSeeded settings s) (check_duplicates H F s4)
                        (λ code s5 checked. record {
                          fixture_sql = sql;
                          count = count;
                          fixture = fixture;
                          middle = s4;
                          filled =
                              extended H F ((schema ++ reference) ++ (sql ∷ []))
                                (insert_duplicates ∷ []) s s3 s4
                                (extended H F (schema ++ reference) (sql ∷ []) s s2 s3
                                  (extended H F schema reference s s1 s2 e1 e2) e3)
                                e4;
                          checked = checked;
                        })
                        (check_duplicates-IsChecked s4)
