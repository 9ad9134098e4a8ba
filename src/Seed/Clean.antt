-- ===== src/Seed/Clean.antt =====
-- The comments of a schema file are gone before it is cut at its semicolons.
use Prim.Native.Char.{Char}
use crypto_analytics_platfor.Base.{
  ◌≡◌, refl, sym, ◌∙◌, true, false, String, inl, inr, arith, Bool-cases, if◌then◌else◌,
}
use crypto_analytics_platfor.Base.Strings.{is_space, starts_with, strip_left}
use crypto_analytics_platfor.Seed.{
  opens_comment, line_start, inside_line, blanks, comment, is_newline, place_after,
  without_comments,
}

-- No line that begins inside the text begins with a comment.
abbrev pub LinesClean : String → Type 0
LinesClean String.[] = Unit
LinesClean (String.◌∷◌ c s) = (is_newline c ≡ true → opens_comment s ≡ false) × LinesClean s

-- Nor does the text itself.
abbrev pub IsClean : String → Type 0
IsClean s = (opens_comment s ≡ false) × LinesClean s

opens_space :
    (c : Char) (s : String) → is_space c ≡ true → opens_comment (String.◌∷◌ c s) ≡ opens_comment s
unfolding opens_comment strip_left
opens_space c s h = rw h refl

newline_space : (c : Char) → is_newline c ≡ true → is_space c ≡ true
newline_space c h = ground arith

-- A character that is no white space starts a comment by itself and the next one.
opens_other :
    (c : Char) (s : String)
    → is_space c ≡ false
    → opens_comment (String.◌∷◌ c (without_comments inside_line s)) ≡ opens_comment (String.◌∷◌ c s)
unfolding opens_comment strip_left without_comments starts_with
opens_other c String.[] h = rw h refl
opens_other c (String.◌∷◌ d s) h = rw h refl

-- What the four places have left of a text.
record Cleaned (s : String) : Type 0 where
  pub at_start : IsClean (without_comments line_start s)
  pub stays : opens_comment s ≡ false → opens_comment (without_comments inside_line s) ≡ false
  pub inside : LinesClean (without_comments inside_line s)
  pub in_blanks : IsClean (without_comments blanks s)
  pub in_comment : IsClean (without_comments comment s)

empty-Cleaned : Cleaned ""
unfolding without_comments opens_comment strip_left starts_with
empty-Cleaned = record {
  at_start = (refl, tt);
  stays = λ h. refl;
  inside = tt;
  in_blanks = (refl, tt);
  in_comment = (refl, tt);
}

kept-Lines :
    (c : Char) (s : String)
    → Cleaned s
    → LinesClean (String.◌∷◌ c (without_comments (place_after c) s))
kept-Lines c s i = elim (Bool-cases (is_newline c)) [
  | inl e ↦ rw e (λ h. i.at_start.0, i.at_start.1)
  | inr e ↦ rw e (λ h. absurd (cc), i.inside)
]

kept-Stays :
    (c : Char) (s : String)
    → Cleaned s
    → opens_comment (String.◌∷◌ c s) ≡ false
    → opens_comment (String.◌∷◌ c (without_comments (place_after c) s)) ≡ false
kept-Stays c s i h = elim (Bool-cases (is_newline c)) [
  | inl e ↦ rw e (opens_space c (without_comments line_start s) (newline_space c e) ∙ i.at_start.0)
  | inr e ↦ rw e (elim (Bool-cases (is_space c)) [
    | inl blank ↦
        opens_space c (without_comments inside_line s) blank
        ∙ i.stays (sym (opens_space c s blank) ∙ h)
    | inr other ↦ opens_other c s other ∙ h
  ])
]

skipped :
    (c : Char) (s : String)
    → Cleaned s
    → IsClean (without_comments (if is_space c then blanks else comment) s)
skipped c s i = elim (Bool-cases (is_space c)) [
  | inl e ↦ rw e i.in_blanks
  | inr e ↦ rw e i.in_comment
]

cons-Cleaned : (c : Char) (s : String) → Cleaned s → Cleaned (String.◌∷◌ c s)
unfolding without_comments
cons-Cleaned c s i = record {
  at_start = elim (Bool-cases (opens_comment (String.◌∷◌ c s))) [
    | inl e ↦ rw e (skipped c s i)
    | inr e ↦ rw e (kept-Stays c s i e, kept-Lines c s i)
  ];
  stays = kept-Stays c s i;
  inside = kept-Lines c s i;
  in_blanks = skipped c s i;
  in_comment = elim (Bool-cases (is_newline c)) [
    | inl e ↦ rw e (
      opens_space c (without_comments line_start s) (newline_space c e) ∙ i.at_start.0,
      (λ h. i.at_start.0, i.at_start.1),
    )
    | inr e ↦ rw e i.in_comment
  ];
}

cleaned : (s : String) → Cleaned s
cleaned String.[] = empty-Cleaned
cleaned (String.◌∷◌ c s) = cons-Cleaned c s (cleaned s)

-- In the text that is cut at its semicolons, no line begins with a comment, whatever the file holds.
pub without_comments-IsClean : (sql_text : String) → IsClean (without_comments line_start sql_text)
without_comments-IsClean sql_text = (cleaned sql_text).at_start
