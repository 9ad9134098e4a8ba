-- ===== src/Seed/Sent.antt =====
-- What the calls of the seeding script send.
use mathlib.Core.List.{append_assoc, append-nil, map-append}
use crypto_analytics_platfor.Base.{
  ℕ, ◌≡◌, refl, sym, ap, ◌∙◌, String, List, [], ◌∷◌, ◌++◌, inl, inr, map, ◌==◌, Bool-cases,
  if◌then◌else◌,
}
use crypto_analytics_platfor.Base.Result.{Result, ok, err}
use crypto_analytics_platfor.Base.Strings.{elem}
use crypto_analytics_platfor.Pipeline.Rules.{Ensures, bind-Ensures, Ensures-mono}
use crypto_analytics_platfor.Sources.Replay.{Floats}
use crypto_analytics_platfor.Seed.{
  Host, statements, requires_broker, Seeding, accepted_by, execute, execute_all, apply_files,
}

-- The statements of the files that need no broker, in order.
abbrev pub schema_of : List (String × String) → List String
schema_of [] = []
schema_of ((name, text) ∷ files) =
    if elem name requires_broker then schema_of files else statements text ++ schema_of files

module _ (H : Host) (F : Floats) where
  -- The texts of the statements that were accepted.
  abbrev pub sent : Seeding H F → List String
  sent s = map (λ (entry : String × String). entry.0) s.accepted

  -- What was sent after a state.
  abbrev pub Sends : Seeding H F → List String → Seeding H F → Type 0
  Sends before sqls s = sent s ≡ sent before ++ sqls

  -- A statement that returned is the newest entry, with its answer.
  abbrev pub Logged : String → Seeding H F → String → Seeding H F → Type 0
  Logged sql before text s = s.accepted ≡ before.accepted ++ ((sql, text) ∷ [])

  accepted_by-Logged :
      (sql : String) (s : Seeding H F) (r : Result (ℕ × String) × H.World)
      → Ensures (Logged sql s) (accepted_by H F sql s r)
  accepted_by-Logged sql s (err e, w) = tt
  accepted_by-Logged sql s (ok (status, text), w) = elim (Bool-cases (status == 200)) [
    | inl e ↦ rw e refl
    | inr e ↦ rw e tt
  ]

  pub execute-Logged : (sql : String) (s : Seeding H F) → Ensures (Logged sql s) (execute H F sql s)
  unfolding execute
  execute-Logged sql s = accepted_by-Logged sql s (H.post sql s.world)

  pub Logged-Sends :
      (sql text : String) (before s : Seeding H F)
      → Logged sql before text s
      → sent s ≡ sent before ++ (sql ∷ [])
  Logged-Sends sql text before s e =
      ap (map (λ (entry : String × String). entry.0)) e
      ∙ map-append (λ (entry : String × String). entry.0) before.accepted ((sql, text) ∷ [])

  pub extended :
      (xs ys : List String) (before middle s : Seeding H F)
      → sent middle ≡ sent before ++ xs
      → sent s ≡ sent middle ++ ys
      → sent s ≡ sent before ++ (xs ++ ys)
  extended xs ys before middle s e f =
      f ∙ ap (λ (l : List String). l ++ ys) e ∙ append_assoc (sent before) xs ys

  none_sent : (s : Seeding H F) → Sends s [] s
  none_sent s = sym (append-nil (sent s))

  pub execute_all-Sends :
      (sqls : List String) (s : Seeding H F)
      → Ensures (λ u s'. Sends s sqls s') (execute_all H F sqls s)
  unfolding execute_all
  execute_all-Sends [] s = none_sent s
  execute_all-Sends (sql ∷ sqls) s =
      bind-Ensures (Logged sql s) (λ u s'. Sends s (sql ∷ sqls) s') (execute H F sql) _ s
        (execute-Logged sql s)
        λ text s1 e.
          Ensures-mono (λ u s'. Sends s1 sqls s') (λ u s'. Sends s (sql ∷ sqls) s')
            (execute_all H F sqls s1)
            (λ u s2 f. extended (sql ∷ []) sqls s s1 s2 (Logged-Sends sql text s s1 e) f)
            (execute_all-Sends sqls s1)

  pub apply_files-Sends :
      (files : List (String × String)) (s : Seeding H F)
      → Ensures (λ u s'. Sends s (schema_of files) s') (apply_files H F files s)
  unfolding apply_files
  apply_files-Sends [] s = none_sent s
  apply_files-Sends ((name, text) ∷ files) s = elim (Bool-cases (elem name requires_broker)) [
    | inl e ↦ rw e (apply_files-Sends files s)
    | inr e ↦ rw e (
        bind-Ensures (λ u s'. Sends s (statements text) s')
          (λ u s'. Sends s (statements text ++ schema_of files) s')
          (execute_all H F (statements text)) _ s (execute_all-Sends (statements text) s)
          λ u s1 e1.
            Ensures-mono (λ u s'. Sends s1 (schema_of files) s')
              (λ u s'. Sends s (statements text ++ schema_of files) s') (apply_files H F files s1)
              (λ u s2 f. extended (statements text) (schema_of files) s s1 s2 e1 f)
              (apply_files-Sends files s1))
  ]
