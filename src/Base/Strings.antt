-- ===== src/Base/Strings.antt =====
-- Python's methods on texts. Letters beyond ASCII have no other case here.
use Prim.Native.Char.{Char, code}
use Prim.Native.Nat.{ℕ, zero, suc, ◌-◌}
use Prim.Native.String.{String}
use mathlib.Core.Bool.{Bool, true, false, ◌&&◌, ◌||◌}
use mathlib.Core.List.{List, [], ◌∷◌}
use mathlib.Core.Option.{Option, none, some}
use crypto_analytics_platfor.Base.Tests.{leb, ◌==◌, if◌then◌else◌}
use crypto_analytics_platfor.Base.Texts.{str_eq}

-- The letter at a place of an alphabet.
abbrev pub letter : String → ℕ → Char → Char
letter String.[] i other = other
letter (String.◌∷◌ c cs) zero other = c
letter (String.◌∷◌ c cs) (suc i) other = letter cs i other

abbrev pub lower_char : Char → Char
lower_char c =
    if leb 65 (code c) && leb (code c) 90
    then letter "abcdefghijklmnopqrstuvwxyz" (code c - 65) c
    else c

abbrev pub upper_char : Char → Char
upper_char c =
    if leb 97 (code c) && leb (code c) 122
    then letter "ABCDEFGHIJKLMNOPQRSTUVWXYZ" (code c - 97) c
    else c

unfoldable pub lower : String → String
lower String.[] = String.[]
lower (String.◌∷◌ c s) = String.◌∷◌ (lower_char c) (lower s)

unfoldable pub upper : String → String
upper String.[] = String.[]
upper (String.◌∷◌ c s) = String.◌∷◌ (upper_char c) (upper s)

unfoldable pub starts_with : String → String → Bool
starts_with s String.[] = true
starts_with String.[] (String.◌∷◌ d p) = false
starts_with (String.◌∷◌ c s) (String.◌∷◌ d p) = code c == code d && starts_with s p

-- `text.split(separator)` for a separator of one character: never empty.
abbrev pub prepend : Char → List String → List String
prepend c [] = String.◌∷◌ c String.[] ∷ []
prepend c (part ∷ parts) = String.◌∷◌ c part ∷ parts

unfoldable pub split : ℕ → String → List String
split separator String.[] = String.[] ∷ []
split separator (String.◌∷◌ c s) =
    let parts = split separator s in
    if code c == separator then String.[] ∷ parts else prepend c parts

-- `strip`, for the white space of ASCII.
abbrev pub is_space : Char → Bool
is_space c = (leb 9 (code c) && leb (code c) 13) || (leb 28 (code c) && leb (code c) 32)

unfoldable pub strip_left : String → String
strip_left String.[] = String.[]
strip_left (String.◌∷◌ c s) = if is_space c then strip_left s else String.◌∷◌ c s

abbrev pub keep_unless_blank : Char → String → String
keep_unless_blank c String.[] = if is_space c then String.[] else String.◌∷◌ c String.[]
keep_unless_blank c (String.◌∷◌ d s) = String.◌∷◌ c (String.◌∷◌ d s)

unfoldable pub strip_right : String → String
strip_right String.[] = String.[]
strip_right (String.◌∷◌ c s) = keep_unless_blank c (strip_right s)

unfoldable pub strip : String → String
unfolding strip_left strip_right
strip s = strip_right (strip_left s)

-- `text[text.find(marker):]` where the marker is found.
unfoldable pub from_marker : String → String → Option String
unfolding starts_with
from_marker String.[] marker = if starts_with String.[] marker then some String.[] else none
from_marker (String.◌∷◌ c s) marker =
    let later = from_marker s marker in
    if starts_with (String.◌∷◌ c s) marker then some (String.◌∷◌ c s) else later

-- `text in texts`
unfoldable pub elem : String → List String → Bool
elem s [] = false
elem s (t ∷ ts) = str_eq s t || elem s ts
