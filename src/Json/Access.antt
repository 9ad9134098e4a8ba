-- ===== src/Json/Access.antt =====
-- How the program reads a decoded document: subscripts, `get`, iteration and truth.
use crypto_analytics_platfor.Base.{
  String, Bool, true, false, not, none, some, List, [], ◌∷◌, pos, negsuc, ◌==◌,
}
use crypto_analytics_platfor.Base.Int.{ℤ}
use crypto_analytics_platfor.Base.Texts.{str_eq}
use crypto_analytics_platfor.Base.Result.{Result, ok, err, type_error, key_error, attribute_error}
use crypto_analytics_platfor.Decimal.{finite}
use crypto_analytics_platfor.Json.{
  Json, null, bool, int, float, str, array, object, nil, cons, Fields, end, field, get, item_list,
}

-- `value["key"]`
unfoldable pub subscript : Json → String → Result Json
subscript (object fs) key = elim (get key fs) [ some v ↦ ok v | none ↦ err key_error ]
subscript _ key = err type_error

-- `value.get("key", default)`
unfoldable pub get_or : Json → String → Json → Result Json
get_or (object fs) key default = elim (get key fs) [ some v ↦ ok v | none ↦ ok default ]
get_or _ key default = err attribute_error

abbrev pub characters : String → List Json
characters String.[] = []
characters (String.◌∷◌ c s) = str (String.◌∷◌ c String.[]) ∷ characters s

abbrev pub keys : Fields → List Json
keys end = []
keys (field k v rest) = str k ∷ keys rest

-- `for x in value`
unfoldable pub iterate : Json → Result (List Json)
iterate (array xs) = ok (item_list xs)
iterate (str s) = ok (characters s)
iterate (object fs) = ok (keys fs)
iterate _ = err type_error

-- `value == "text"`
unfoldable pub is_text : Json → String → Bool
is_text (str s) t = str_eq s t
is_text _ t = false

abbrev pub is_zero : ℤ → Bool
is_zero (pos n) = n == 0
is_zero (negsuc n) = false

-- `bool(value)`; no infinity and no NaN is false.
unfoldable pub truthy : Json → Bool
truthy null = false
truthy (bool b) = b
truthy (int n) = not (is_zero n)
truthy (float (finite d)) = not (is_zero d.mantissa)
truthy (float _) = true
truthy (str s) = not (str_eq s "")
truthy (array nil) = false
truthy (array (cons _ _)) = true
truthy (object end) = false
truthy (object (field _ _ _)) = true

unfoldable pub is_null : Json → Bool
is_null null = true
is_null _ = false
