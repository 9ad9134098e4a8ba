-- ===== src/Register/Template.antt =====
-- `strip_doc_keys`, `substitute` and `load_payload` of scripts/register_connector.py.
pub mod Kept
use Prim.Native.Char.{Char, code}
use Prim.Native.String.{◌++◌ as ◌<>◌}
use crypto_analytics_platfor.Base.{
  String, Bool, leb, ◌&&◌, ◌||◌, ◌==◌, not, List, [], ◌∷◌, ◌++◌, none, some, if◌then◌else◌,
}
use crypto_analytics_platfor.Base.Result.{Result, ok, err, ◌>>=◌, key_error, attribute_error}
use crypto_analytics_platfor.Base.Strings.{starts_with}
use crypto_analytics_platfor.Base.Texts.{str_eq}
use crypto_analytics_platfor.Configuration.{Variables, is_empty}
use crypto_analytics_platfor.Json.{Json, str, object, Fields, end, field}
use crypto_analytics_platfor.Json.Access.{subscript}

-- `{k: v for k, v in config.items() if not k.startswith(DOC_KEY_PREFIX)}`
unfoldable pub strip_doc_keys : Fields → Fields
unfolding starts_with
strip_doc_keys end = end
strip_doc_keys (field key value rest) =
    let kept = strip_doc_keys rest in if starts_with key "__doc" then kept else field key value kept

-- A text as the expression PLACEHOLDER cuts it: what stands between the matches, and their names.
pub data Piece : Type 0 where
  literal : String → Piece
  variable : String → Piece

-- What of a match has been read: nothing, `$`, or `${` and the characters of a name.
pub data Partial : Type 0 where
  outside : Partial
  dollar : Partial
  name : String → Partial

-- [A-Z0-9_]
abbrev pub is_name_char : Char → Bool
is_name_char c =
    (leb 65 (code c) && leb (code c) 90) || (leb 48 (code c) && leb (code c) 57) || code c == 95

abbrev pub one : Char → String
one c = String.◌∷◌ c String.[]

-- What has been read of a match that is none.
abbrev pub pending : Partial → String
pending outside = ""
pending dollar = "$"
pending (name cs) = "${" <> cs

-- A character that goes on with no match: what was pending is literal.
unfoldable pub restart : String → Char → List Piece × Partial
unfolding str_eq
restart before c =
    if str_eq (one c) "$"
    then (literal before ∷ [], dollar)
    else (literal before ∷ literal (one c) ∷ [], outside)

unfoldable pub step : Partial → Char → List Piece × Partial
unfolding restart str_eq
step outside c = restart "" c
step dollar c = if str_eq (one c) "{" then ([], name "") else restart "$" c
step (name cs) c =
    if is_name_char c
    then ([], name (cs <> one c))
    else if str_eq (one c) "}" && not (str_eq cs "")
    then (variable cs ∷ [], outside)
    else restart ("${" <> cs) c

unfoldable pub pieces : Partial → String → List Piece
unfolding step
pieces state String.[] = literal (pending state) ∷ []
pieces state (String.◌∷◌ c s) = (step state c).0 ++ pieces (step state c).1 s

-- `one`: the value of a variable, or the match itself where it is missing.
unfoldable pub replacement : Variables → Piece → String
replacement env (literal s) = s
replacement env (variable key) = elim (env key) [ some value ↦ value | none ↦ "${" <> (key <> "}") ]

unfoldable pub rendered : Variables → List Piece → String
unfolding replacement
rendered env [] = ""
rendered env (piece ∷ rest) = replacement env piece <> rendered env rest

-- The names that the text adds to `missing`.
unfoldable pub missing_in : Variables → List Piece → List String
missing_in env [] = []
missing_in env (literal s ∷ rest) = missing_in env rest
missing_in env (variable key ∷ rest) =
    let later = missing_in env rest in elim (env key) [ some value ↦ later | none ↦ key ∷ later ]

-- `replace(v) if isinstance(v, str) else v`
unfoldable pub replace : Variables → Json → Json
unfolding rendered pieces
replace env (str s) = str (rendered env (pieces outside s))
replace env value = value

unfoldable pub missing_names : Variables → Fields → List String
unfolding missing_in pieces
missing_names env end = []
missing_names env (field key (str s) rest) =
    missing_in env (pieces outside s) ++ missing_names env rest
missing_names env (field key value rest) = missing_names env rest

unfoldable pub resolved : Variables → Fields → Fields
unfolding replace
resolved env end = end
resolved env (field key value rest) = field key (replace env value) (resolved env rest)

-- `substitute`
unfoldable pub substitute : Variables → Fields → Result Fields
unfolding missing_names resolved
substitute env config =
    if is_empty (missing_names env config) then ok (resolved env config) else err key_error

-- `config.items()`
unfoldable pub fields_of : Json → Result Fields
fields_of (object fs) = ok fs
fields_of _ = err attribute_error

-- `load_payload`, once the template has been decoded.
unfoldable pub load_payload : Variables → Json → Result (Json × Fields)
unfolding subscript fields_of substitute strip_doc_keys
load_payload env template = subscript template "name" >>= λ connector_name.
    subscript template "config" >>= λ config. fields_of config >>= λ fs.
    substitute env (strip_doc_keys fs) >>= λ out. ok (connector_name, out)
