-- ===== src/Linter/Scan.antt =====
-- The two searches of the linter in a statement, without case: a target, `\bTO\s+([a-z_]+\.[a-z_0-9]+)`,
-- and what a statement creates.
use Prim.Native.Char.{Char, code}
use Prim.Native.String.{◌++◌ as ◌<>◌}
use crypto_analytics_platfor.Base.{
  Bool, false, ◌&&◌, ◌||◌, String, Option, none, some, leb, ◌==◌, if◌then◌else◌,
}
use crypto_analytics_platfor.Base.Strings.{is_space, lower, lower_char, strip_left}
use crypto_analytics_platfor.Base.Texts.{str_eq}

abbrev pub lower_name : String → String
lower_name name = lower name

-- `[a-z_]`, of either case.
abbrev pub is_head : Char → Bool
is_head c = (leb 97 (code (lower_char c)) && leb (code (lower_char c)) 122) || code c == 95

-- `[a-z_0-9]`
abbrev pub is_tail : Char → Bool
is_tail c = is_head c || (leb 48 (code c) && leb (code c) 57)

abbrev pub span_of : (Char → Bool) → String → String
span_of test String.[] = String.[]
span_of test (String.◌∷◌ c s) =
    let rest = span_of test s in if test c then String.◌∷◌ c rest else String.[]

abbrev pub behind : (Char → Bool) → String → String
behind test String.[] = String.[]
behind test (String.◌∷◌ c s) = let rest = behind test s in if test c then rest else String.◌∷◌ c s

-- What stands behind a text, which is given in lower case.
unfoldable pub after_text : String → String → Option String
after_text String.[] s = some s
after_text (String.◌∷◌ p ps) String.[] = none
after_text (String.◌∷◌ p ps) (String.◌∷◌ c s) =
    let rest = after_text ps s in if code (lower_char c) == code p then rest else none

-- The name `schema.table` that begins here.
unfoldable pub name_at : String → Option String
unfolding after_text
name_at s =
    let schema = span_of is_head s in
    elim (after_text "." (behind is_head s)) [
      | some rest ↦
          let table = span_of is_tail rest in
          if str_eq schema "" || str_eq table "" then none else some (schema <> ("." <> table))
      | none ↦ none
    ]

abbrev pub name_after : Option String → Option String
name_after (some s) = name_at s
name_after none = none

abbrev pub or_else : Option String → Option String → Option String
or_else (some s) other = some s
or_else none other = other

-- At least one white space, and all of it.
abbrev pub past_spaces : Option String → Option String
past_spaces (some (String.◌∷◌ c s)) = if is_space c then some (strip_left s) else none
past_spaces _ = none

-- The search for a target, from a place behind a character of a word or not.
unfoldable pub find_target : Bool → String → Option String
unfolding after_text name_at strip_left
find_target in_word String.[] = none
find_target in_word (String.◌∷◌ c s) =
    let later = find_target (is_tail c) s in
    if in_word
    then later
    else or_else (name_after (past_spaces (after_text "to" (String.◌∷◌ c s)))) later

unfoldable pub target_of : String → Option String
unfolding find_target
target_of statement = find_target false statement

-- ` IF NOT EXISTS` may stand before the name.
abbrev pub named : Option String → Option String
named (some s) =
    or_else (name_after (after_text " if not exists " s)) (name_after (after_text " " s))
named none = none

abbrev pub after_create : Option String → Option String
after_create (some s) =
    or_else (named (after_text "materialized view" s))
      (or_else (named (after_text "table" s)) (named (after_text "view" s)))
after_create none = none

-- The search for `CREATE (?:MATERIALIZED VIEW|TABLE|VIEW)(?: IF NOT EXISTS)? ([a-z_]+\.[a-z_0-9]+)`.
unfoldable pub created_by : String → Option String
unfolding after_text name_at
created_by String.[] = none
created_by (String.◌∷◌ c s) =
    let later = created_by s in or_else (after_create (after_text "create " (String.◌∷◌ c s))) later
