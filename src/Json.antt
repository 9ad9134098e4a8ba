-- ===== src/Json.antt =====
-- A decoded JSON document: what `response.json()` gives, and how the program reads it.
pub mod Access
use crypto_analytics_platfor.Base.{
  ℕ, zero, suc, Bool, String, Option, none, some, List, [], ◌∷◌, pos, if◌then◌else◌,
}
use crypto_analytics_platfor.Base.Int.{ℤ}
use crypto_analytics_platfor.Base.Texts.{str_eq}
use crypto_analytics_platfor.Base.Result.{
  Result, ok, err, value_error, type_error, index_error, key_error, overflow_error,
  invalid_operation,
}
use crypto_analytics_platfor.Decimal.{AnyDecimal, finite, infinite, nan}
use crypto_analytics_platfor.Decimal.Literal.{decimal_of_text, int_of_text, truncated}

-- A float is kept as the decimal value that its `repr` shows.
mutual
  pub data Json : Type 0 where
    null : Json
    bool : Bool → Json
    int : ℤ → Json
    float : AnyDecimal → Json
    str : String → Json
    array : Items → Json
    object : Fields → Json

  pub data Items : Type 0 where
    nil : Items
    cons : Json → Items → Items

  pub data Fields : Type 0 where
    end : Fields
    field : String → Json → Fields → Fields

abbrev pub item_list : Items → List Json
item_list nil = []
item_list (cons x xs) = x ∷ item_list xs

abbrev pub items : List Json → Items
items [] = nil
items (x ∷ xs) = cons x (items xs)

-- `d.get(key)`; the last of two equal keys is the one that a decoder keeps.
abbrev pub get : String → Fields → Option Json
get key end = none
get key (field k v rest) = elim (get key rest) [
  | some w ↦ some w
  | none ↦ (if str_eq k key then some v else none)
]

-- `value[i]` on whatever was decoded. An item of a text is a text of one character.
abbrev pub item : Json → ℕ → Result Json
item (array xs) i = nth xs i
  where
    nth : Items → ℕ → Result Json
    nth nil i = err index_error
    nth (cons x xs) zero = ok x
    nth (cons x xs) (suc i) = nth xs i
item (str s) i = char s i
  where
    char : String → ℕ → Result Json
    char String.[] i = err index_error
    char (String.◌∷◌ c s) zero = ok (str (String.◌∷◌ c String.[]))
    char (String.◌∷◌ c s) (suc i) = char s i
item (object fs) i = err key_error
item _ i = err type_error

-- `int(value)`
unfoldable pub int_of : Json → Result ℤ
unfolding int_of_text truncated
int_of (int n) = ok n
int_of (bool b) = ok (if b then pos 1 else pos 0)
int_of (float (finite d)) = ok (truncated d)
int_of (float (infinite _)) = err overflow_error
int_of (float nan) = err value_error
int_of (str s) = elim (int_of_text s) [ some n ↦ ok n | none ↦ err value_error ]
int_of _ = err type_error

-- `Decimal(str(value))`: the text of null, of a truth value and of a container is no number.
unfoldable pub decimal_of : Json → Result AnyDecimal
unfolding decimal_of_text
decimal_of (int n) = ok (finite (record { mantissa = n; scale = 0 }))
decimal_of (float x) = ok x
decimal_of (str s) = elim (decimal_of_text s) [ some x ↦ ok x | none ↦ err invalid_operation ]
decimal_of _ = err invalid_operation
