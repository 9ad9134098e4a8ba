-- ===== src/Linter/Order.antt =====
-- What a run of the linter tells that has reported nothing, check by check.
use mathlib.Core.Path.{subst}
use crypto_analytics_platfor.Base.{
  ◌≡◌, refl, sym, ap, ◌∙◌, ◌⊎◌, inl, inr, Bool, true, false, String, List, [], ◌∷◌, ◌++◌, All,
  Bool-cases,
}
use crypto_analytics_platfor.Base.Result.{Result, ok, err}
use crypto_analytics_platfor.Linter.{
  FilePath, Problem, unknown_target, Report, Lint, report_problem, passed, report_if, check_files,
}
use crypto_analytics_platfor.Linter.Schema.{
  is_early, created_after, check_statements, check_init_files,
}
use crypto_analytics_platfor.Pipeline.{Task, ◌>>=◌}
use crypto_analytics_platfor.Seed.{statements}

-- Nothing takes a report back.
abbrev pub Calm : {A : Type 0} → Task Lint A → Type 0
Calm m = (s : Lint) → (m s).1.failures ≡ [] → s.failures ≡ []

-- If the call returns with nothing reported, its value is so.
abbrev pub Tells : {A : Type 0} → (A → Type 0) → Result A × Lint → Type 0
Tells Q (ok a, s) = s.failures ≡ [] → Q a
Tells Q (err e, s) = Unit

outcome-Calm :
    {A B : Type 0} (r : Result A × Lint) (f : A → Task Lint B)
    → ((a : A) → Calm (f a))
    → (let out : Result B × Lint = elim r.0 [ ok a ↦ f a r.1 | err e ↦ (err e, r.1) ] in
        out).1.failures
      ≡ []
    → r.1.failures ≡ []
outcome-Calm (ok a, s) f k h = k a s h
outcome-Calm (err e, s) f k h = h

pub bind-Calm :
    {A B : Type 0} (m : Task Lint A) (f : A → Task Lint B)
    → Calm m
    → ((a : A) → Calm (f a))
    → Calm (m >>= f)
unfolding ◌>>=◌
bind-Calm m f h k s e = h s (outcome-Calm (m s) f k e)

combined :
    {B : Type 0} (R : B → Type 0) (Q : Type 0) (before : Lint) (r : Result B × Lint)
    → (before.failures ≡ [] → Q)
    → (r.1.failures ≡ [] → before.failures ≡ [])
    → (Q → Tells R r)
    → Tells R r
combined R Q before (ok b, s) q calm k = λ e. k (q (calm e)) e
combined R Q before (err x, s) q calm k = tt

outcome-Tells :
    {A B : Type 0} (Q : A → Type 0) (R : B → Type 0) (r : Result A × Lint) (f : A → Task Lint B)
    → Tells Q r
    → ((a : A) → Calm (f a))
    → ((a : A) → Q a → (s : Lint) → Tells R (f a s))
    → Tells R (elim r.0 [ ok a ↦ f a r.1 | err e ↦ (err e, r.1) ])
outcome-Tells Q R (ok a, s) f q calm k = combined R (Q a) s (f a s) q (calm a s) (λ h. k a h s)
outcome-Tells Q R (err e, s) f q calm k = tt

pub bind-Tells :
    {A B : Type 0} (Q : A → Type 0) (R : B → Type 0) (m : Task Lint A) (f : A → Task Lint B)
    (s : Lint)
    → Tells Q (m s)
    → ((a : A) → Calm (f a))
    → ((a : A) → Q a → (s' : Lint) → Tells R (f a s'))
    → Tells R ((m >>= f) s)
unfolding ◌>>=◌
bind-Tells Q R m f s q calm k = outcome-Tells Q R (m s) f q calm k

some_report : (xs : List Report) (x : Report) → xs ++ (x ∷ []) ≡ [] → ⊥
some_report [] x h = cc
some_report (y ∷ ys) x h = cc

pub report_problem-Calm : (path : FilePath) (problem : Problem) → Calm (report_problem path problem)
unfolding report_problem
report_problem-Calm path problem s h = absurd (some_report s.failures _ h)

pub report_if-Calm :
    (test : Bool) (path : FilePath) (problem : Problem) → Calm (report_if test path problem)
report_if-Calm true path problem s h = report_problem-Calm path problem s h
report_if-Calm false path problem s h = h

-- A test that was reported on has failed.
pub report_if-Tells :
    (test : Bool) (path : FilePath) (problem : Problem) (s : Lint)
    → Tells (λ u. test ≡ false) (report_if test path problem s)
unfolding report_problem
report_if-Tells true path problem s = λ h. absurd (some_report s.failures _ h)
report_if-Tells false path problem s = λ h. refl

pub any-Tells : {A : Type 0} (r : Result A × Lint) → Tells (λ a. Unit {0}) r
any-Tells (ok a, s) = λ h. tt
any-Tells (err e, s) = tt

passed-Calm : Calm passed
unfolding passed
passed-Calm s h = h

pub check_files-Calm :
    (left_out parses : FilePath → Bool) (problem : Problem) (paths : List FilePath)
    → Calm (check_files left_out parses problem paths)
unfolding check_files
check_files-Calm left_out parses problem [] s h = h
check_files-Calm left_out parses problem (path ∷ paths) s h = elim (Bool-cases (left_out path)) [
  | inl e ↦ check_files-Calm left_out parses problem paths s (rw e at h)
  | inr e ↦ elim (Bool-cases (parses path)) [
    | inl f ↦
        bind-Calm passed _ passed-Calm (λ u. check_files-Calm left_out parses problem paths) s
          (rw (e, f) at h)
    | inr f ↦
        bind-Calm (report_problem path problem) _ (report_problem-Calm path problem)
          (λ u. check_files-Calm left_out parses problem paths) s (rw (e, f) at h)
  ]
]

-- Each file is left out, or a parser takes it.
abbrev pub Parsed : (left_out parses : FilePath → Bool) → List FilePath → Type 0
Parsed left_out parses paths = All (λ path. (left_out path ≡ true) ⊎ (parses path ≡ true)) paths

pub Tells-mono :
    {A : Type 0} (Q R : A → Type 0) (r : Result A × Lint)
    → ((a : A) → Q a → R a)
    → Tells Q r
    → Tells R r
Tells-mono Q R (ok a, s) k h = λ e. k a (h e)
Tells-mono Q R (err x, s) k h = tt

report_problem-Tells :
    (path : FilePath) (problem : Problem) (s : Lint)
    → Tells (λ u. ⊥) (report_problem path problem s)
unfolding report_problem
report_problem-Tells path problem s = λ h. some_report s.failures _ h

pub check_files-Tells :
    (left_out parses : FilePath → Bool) (problem : Problem) (paths : List FilePath) (s : Lint)
    → Tells (λ u. Parsed left_out parses paths) (check_files left_out parses problem paths s)
unfolding check_files
check_files-Tells left_out parses problem [] s = λ h. tt
check_files-Tells left_out parses problem (path ∷ paths) s =
    let rest = check_files left_out parses problem paths in
    let All_parsed = λ (u : Unit {0}). Parsed left_out parses paths in
    elim (Bool-cases (left_out path)) [
      | inl e ↦ rw e (
          Tells-mono All_parsed (λ u. ((true ≡ true) ⊎ (parses path ≡ true)) × All_parsed u)
            (rest s) (λ u h. (inl refl, h)) (check_files-Tells left_out parses problem paths s))
      | inr e ↦ elim (Bool-cases (parses path)) [
        | inl f ↦
            rw (e, f)
              (bind-Tells (λ u. Unit {0}) (λ u. ((false ≡ true) ⊎ (true ≡ true)) × All_parsed u)
                passed (λ u. rest) s (any-Tells (passed s))
                (λ u. check_files-Calm left_out parses problem paths)
                λ u _ s'.
                  Tells-mono All_parsed (λ u. ((false ≡ true) ⊎ (true ≡ true)) × All_parsed u)
                    (rest s') (λ u h. (inr refl, h))
                    (check_files-Tells left_out parses problem paths s'))
        | inr f ↦
            rw (e, f)
              (bind-Tells (λ u. ⊥) (λ u. ((false ≡ true) ⊎ (false ≡ true)) × All_parsed u)
                (report_problem path problem) (λ u. rest) s (report_problem-Tells path problem s)
                (λ u. check_files-Calm left_out parses problem paths) λ u never s'. absurd never)
      ]
    ]

-- No statement targets a table before it is created, from the tables created so far.
abbrev pub NoneEarly : List String → List String → Type 0
NoneEarly created [] = Unit
NoneEarly created (st ∷ sts) =
    (is_early created st ≡ false) × NoneEarly (created_after created st) sts

abbrev pub all_created : List String → List String → List String
all_created created [] = created
all_created created (st ∷ sts) = all_created (created_after created st) sts

-- The statements of all the files, in order.
abbrev pub all_statements : List (FilePath × String) → List String
all_statements [] = []
all_statements ((path, text) ∷ files) = statements text ++ all_statements files

NoneEarly-append :
    (created xs ys : List String)
    → NoneEarly created xs
    → NoneEarly (all_created created xs) ys
    → NoneEarly created (xs ++ ys)
NoneEarly-append created [] ys h k = k
NoneEarly-append created (x ∷ xs) ys h k =
    (h.0, NoneEarly-append (created_after created x) xs ys h.1 k)

all_created-append :
    (created xs ys : List String)
    → all_created created (xs ++ ys) ≡ all_created (all_created created xs) ys
all_created-append created [] ys = refl
all_created-append created (x ∷ xs) ys = all_created-append (created_after created x) xs ys

pub check_statements-Calm :
    (path : FilePath) (created sts : List String) → Calm (check_statements path created sts)
unfolding check_statements
check_statements-Calm path created [] s h = h
check_statements-Calm path created (st ∷ sts) s h =
    bind-Calm (report_if (is_early created st) path unknown_target) _
      (report_if-Calm (is_early created st) path unknown_target)
      (λ u. check_statements-Calm path (created_after created st) sts) s h

check_statements-Tells :
    (path : FilePath) (created sts : List String) (s : Lint)
    → Tells
        (λ more. NoneEarly created sts × (more ≡ all_created created sts))
        (check_statements path created sts s)
unfolding check_statements
check_statements-Tells path created [] s = λ h. (tt, refl)
check_statements-Tells path created (st ∷ sts) s =
    let after = created_after created st in
    let Rest = λ (more : List String). NoneEarly after sts × (more ≡ all_created after sts) in
    let Whole = λ (more : List String).
      NoneEarly created (st ∷ sts) × (more ≡ all_created created (st ∷ sts)) in
    bind-Tells (λ u. is_early created st ≡ false) Whole
      (report_if (is_early created st) path unknown_target) _ s
      (report_if-Tells (is_early created st) path unknown_target s)
      (λ u. check_statements-Calm path after sts)
      λ u early s'.
        Tells-mono Rest Whole (check_statements path after sts s') (λ more h. ((early, h.0), h.1))
          (check_statements-Tells path after sts s')

pub check_init_files-Calm :
    (files : List (FilePath × String)) (created : List String)
    → Calm (check_init_files files created)
unfolding check_init_files
check_init_files-Calm [] created s h = h
check_init_files-Calm ((path, text) ∷ files) created s h =
    bind-Calm (check_statements path created (statements text)) _
      (check_statements-Calm path created (statements text)) (check_init_files-Calm files) s h

pub check_init_files-Tells :
    (files : List (FilePath × String)) (created : List String) (s : Lint)
    → Tells
        (λ more.
          NoneEarly created (all_statements files)
          × (more ≡ all_created created (all_statements files)))
        (check_init_files files created s)
unfolding check_init_files
check_init_files-Tells [] created s = λ h. (tt, refl)
check_init_files-Tells ((path, text) ∷ files) created s =
    let own = statements text in
    let others = all_statements files in
    let Whole = λ (more : List String).
      NoneEarly created (own ++ others) × (more ≡ all_created created (own ++ others)) in
    bind-Tells (λ more. NoneEarly created own × (more ≡ all_created created own)) Whole
      (check_statements path created own) (check_init_files files) s
      (check_statements-Tells path created own s) (check_init_files-Calm files)
      λ more (early, same) s'.
        Tells-mono (λ last. NoneEarly more others × (last ≡ all_created more others)) Whole
          (check_init_files files more s')
          (λ last h. (
            NoneEarly-append created own others early (subst (λ c. NoneEarly c others) same h.0),
            h.1
                ∙ ap (λ (c : List String). all_created c others) same
                ∙ sym (all_created-append created own others),
          ))
          (check_init_files-Tells files more s')
