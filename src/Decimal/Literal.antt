-- ===== src/Decimal/Literal.antt =====
-- `Decimal(text)` and `int(text)` on ASCII text.
use Prim.Native.String.{String}
use crypto_analytics_platfor.Base.{
  ℕ, suc, ◌+◌, ◌-◌, ◌*◌, ◌^◌, ◌/◌, ◌≡◌, refl, Bool, true, false, ◌&&◌, ◌||◌, List, [], ◌∷◌, ◌++◌,
  Option, none, some, pos, negsuc, leb, ◌==◌, if◌then◌else◌, length,
}
use crypto_analytics_platfor.Base.Int.{ℤ, ◌*ℤ◌, ◌-ℤ◌}
use crypto_analytics_platfor.Base.Texts.{codes}
use crypto_analytics_platfor.Decimal.{Decimal, AnyDecimal, finite, infinite, nan}

is_digit : ℕ → Bool
is_digit c = leb b'0' c && leb c b'9'

-- ASCII white space, as `str.strip` removes it.
is_space : ℕ → Bool
is_space c = c == 32 || (leb 9 c && leb c 13) || (leb 28 c && leb c 31)

lower : ℕ → ℕ
lower c = if leb b'A' c && leb c b'Z' then c + 32 else c

lstrip : List ℕ → List ℕ
lstrip [] = []
lstrip (c ∷ cs) = if is_space c then lstrip cs else c ∷ cs

rstrip : List ℕ → List ℕ
rstrip [] = []
rstrip (c ∷ cs) = keep (rstrip cs)
  where
    keep : List ℕ → List ℕ
    keep [] = if is_space c then [] else c ∷ []
    keep (d ∷ ds) = c ∷ d ∷ ds

unfoldable pub strip : List ℕ → List ℕ
unfolding lstrip rstrip is_space
strip cs = rstrip (lstrip cs)

-- The leading digits, and what follows them.
span_digits : List ℕ → List ℕ × List ℕ
span_digits [] = ([], [])
span_digits (c ∷ cs) =
    let (ds, rest) = span_digits cs in if is_digit c then (c ∷ ds, rest) else ([], c ∷ cs)

digits_value : ℕ → List ℕ → ℕ
digits_value acc [] = acc
digits_value acc (c ∷ cs) = digits_value (acc * 10 + (c - 48)) cs

signed : Bool → ℕ → ℤ
unfolding ◌-ℤ◌
signed is_negative n = if is_negative then pos 0 -ℤ pos n else pos n

-- An optional sign, and what follows it.
take_sign : List ℕ → Bool × List ℕ
take_sign [] = (false, [])
take_sign (c ∷ cs) =
    if c == b'-' then (true, cs) else if c == b'+' then (false, cs) else (false, c ∷ cs)

same_codes : List ℕ → List ℕ → Bool
same_codes [] [] = true
same_codes (a ∷ as') (b ∷ bs) = a == b && same_codes as' bs
same_codes _ _ = false

lower_all : List ℕ → List ℕ
lower_all [] = []
lower_all (c ∷ cs) = lower c ∷ lower_all cs

without_underscores : List ℕ → List ℕ
without_underscores [] = []
without_underscores (c ∷ cs) =
    let rest = without_underscores cs in if c == b'_' then rest else c ∷ rest

-- The value of the digits `ds` times 10 ^ (e - fraction), with its sign.
scaled : Bool → List ℕ → ℕ → ℤ → Decimal
scaled is_negative ds fraction (pos e) =
    let m = signed is_negative (digits_value 0 ds) in
    if leb fraction e
    then record { mantissa = m *ℤ (10 ^ (e - fraction)); scale = 0 }
    else record { mantissa = m; scale = fraction - e }
scaled is_negative ds fraction (negsuc e) = record {
  mantissa = signed is_negative (digits_value 0 ds);
  scale = fraction + suc e;
}

-- The exponent: absent, or `e`, an optional sign and digits up to the end.
exponent : List ℕ → Option ℤ
exponent [] = some (pos 0)
exponent (c ∷ cs) =
    if lower c == b'e'
    then (let (is_negative, rest) = take_sign cs in
        let (ds, end) = span_digits rest in
        if length ds == 0
        then none
        else if length end == 0
        then some (signed is_negative (digits_value 0 ds))
        else none)
    else none

-- The digits, the point and the digits behind it.
fraction_part : List ℕ → List ℕ × List ℕ
fraction_part [] = ([], [])
fraction_part (c ∷ cs) = if c == b'.' then span_digits cs else ([], c ∷ cs)

number : Bool → List ℕ → Option AnyDecimal
number is_negative cs =
    let (whole_digits, rest) = span_digits cs in
    let (fraction_digits, tail) = fraction_part rest in
    let ds = whole_digits ++ fraction_digits in
    if length ds == 0 then none else elim (exponent tail) [
      | none ↦ none
      | some e ↦ some (finite (scaled is_negative ds (length fraction_digits) e))
    ]

all_digits : List ℕ → Bool
all_digits [] = true
all_digits (c ∷ cs) = is_digit c && all_digits cs

-- `nan` or `snan`, with an optional diagnostic number.
is_nan : List ℕ → Bool
is_nan (a ∷ b ∷ c ∷ ds) =
    same_codes (a ∷ b ∷ c ∷ []) (codes "nan") && all_digits ds || snan a b c ds
  where
    snan : ℕ → ℕ → ℕ → List ℕ → Bool
    snan s n a' [] = false
    snan s n a' (d ∷ rest) = same_codes (s ∷ n ∷ a' ∷ d ∷ []) (codes "snan") && all_digits rest
is_nan _ = false

unsigned_decimal : Bool → List ℕ → Option AnyDecimal
unsigned_decimal is_negative cs =
    let word = lower_all cs in
    if same_codes word (codes "inf") || same_codes word (codes "infinity")
    then some (infinite is_negative)
    else if is_nan word
    then some nan
    else number is_negative cs

-- `Decimal(text)`; `none` is InvalidOperation.
unfoldable pub decimal_of_text : String → Option AnyDecimal
unfolding strip without_underscores take_sign unsigned_decimal same_codes is_nan number span_digits
    fraction_part exponent scaled digits_value signed is_digit lower lower_all all_digits ◌*ℤ◌ ◌-ℤ◌
decimal_of_text text =
    let (is_negative, rest) = take_sign (without_underscores (strip (codes text))) in
    unsigned_decimal is_negative rest

-- Digits with single underscores between them, as `int(text)` takes them.
int_digits : Bool → List ℕ → Bool
int_digits after_digit [] = after_digit
int_digits after_digit (c ∷ cs) =
    (is_digit c || (after_digit && c == b'_')) && int_digits (is_digit c) cs

-- `int(text)`; `none` is ValueError.
unfoldable pub int_of_text : String → Option ℤ
unfolding strip without_underscores take_sign int_digits digits_value signed is_digit
int_of_text text =
    let (is_negative, rest) = take_sign (strip (codes text)) in
    if int_digits false rest
    then some (signed is_negative (digits_value 0 (without_underscores rest)))
    else none

toward_zero : ℤ → ℕ → ℤ
unfolding ◌-ℤ◌
toward_zero (pos n) k = pos (n / k)
toward_zero (negsuc n) k = pos 0 -ℤ pos (suc n / k)

-- `int(value)` of a finite float.
unfoldable pub truncated : Decimal → ℤ
unfolding toward_zero
truncated d = toward_zero d.mantissa (10 ^ d.scale)

price_text :
    decimal_of_text " 1_865.20" ≡ some (finite (record { mantissa = pos 186520; scale = 2 }))
unfolding decimal_of_text
price_text = refl

small_text : decimal_of_text "-1.5e-3" ≡ some (finite (record { mantissa = negsuc 14; scale = 4 }))
unfolding decimal_of_text
small_text = refl

large_text : decimal_of_text "12.5E+3" ≡ some (finite (record { mantissa = pos 12500; scale = 0 }))
unfolding decimal_of_text
large_text = refl

nan_text : decimal_of_text "sNaN12" ≡ some nan
unfolding decimal_of_text
nan_text = refl

infinity_text : decimal_of_text "-Infinity" ≡ some (infinite true)
unfolding decimal_of_text
infinity_text = refl

bad_text : decimal_of_text "12.3.4" ≡ none
unfolding decimal_of_text
bad_text = refl

int_text : int_of_text "1_700" ≡ some (pos 1700)
unfolding int_of_text
int_text = refl
