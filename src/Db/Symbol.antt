-- ===== src/Db/Symbol.antt =====
-- `split_symbol` of ingestion/db.py: a pair, taken apart at a known quote asset.
use Prim.Native.Char.{code}
use mathlib.Core.Path.{subst}
use crypto_analytics_platfor.Base.{
  ℕ, zero, suc, ◌-◌, ◌≤◌, ◌<◌, ◌≡◌, refl, ap, ◌∙◌, sym, ◌⊎◌, inl, inr, String, Bool, true, false,
  ◌&&◌, List, [], ◌∷◌, ◌++◌, arith, ltb, min, Bool-cases, if◌then◌else◌, length, All,
}
use crypto_analytics_platfor.Base.Texts.{codes, str_eq, str_eq_iff}

-- `len`, `s[:n]` and `s[n:]`, by characters.
abbrev pub text_length : String → ℕ
text_length s = length (codes s)

unfoldable pub text_take : ℕ → String → String
text_take zero s = String.[]
text_take (suc n) String.[] = String.[]
text_take (suc n) (String.◌∷◌ c s) = String.◌∷◌ c (text_take n s)

unfoldable pub text_drop : ℕ → String → String
text_drop zero s = s
text_drop (suc n) String.[] = String.[]
text_drop (suc n) (String.◌∷◌ c s) = text_drop n s

-- `symbol.endswith(quote) and len(symbol) > len(quote)`
unfoldable pub fits : String → String → Bool
unfolding text_drop
fits symbol quote =
    ltb (text_length quote) (text_length symbol)
    && str_eq (text_drop (text_length symbol - text_length quote) symbol) quote

abbrev pub known_quotes : List String
known_quotes =
    "USDT" ∷ "USDC" ∷ "FDUSD" ∷ "TUSD" ∷ "BUSD" ∷ "USD" ∷ "EUR" ∷ "BTC" ∷ "ETH" ∷ "BNB" ∷ []

-- The loop over the quotes, and the fallback behind it. A text of fewer than three characters is all
-- quote.
unfoldable pub split_at : List String → String → String × String
unfolding fits text_take text_drop
split_at [] symbol =
    (text_take (text_length symbol - 3) symbol, text_drop (text_length symbol - 3) symbol)
split_at (quote ∷ quotes) symbol =
    if fits symbol quote
    then (text_take (text_length symbol - text_length quote) symbol, quote)
    else split_at quotes symbol

unfoldable pub split_symbol : String → String × String
unfolding split_at
split_symbol symbol = split_at known_quotes symbol

abbrev pub Listed : String → List String → Type 0
Listed x [] = ⊥
Listed x (y ∷ ys) = (x ≡ y) ⊎ Listed x ys

-- The two parts of a pair: together they are the pair; and either the quote is one of the list, with
-- something in front, or no quote of the list fits, and it is the last three characters.
abbrev pub Splits : List String → String → String × String → Type 0
Splits quotes symbol parts =
    (codes parts.0 ++ codes parts.1 ≡ codes symbol)
    × ((Listed parts.1 quotes × (0 < text_length parts.0))
        ⊎ (All (λ quote. fits symbol quote ≡ false) quotes
            × (text_length parts.1 ≡ min 3 (text_length symbol))))

take_drop : (n : ℕ) (s : String) → codes (text_take n s) ++ codes (text_drop n s) ≡ codes s
unfolding text_take text_drop
take_drop zero s = refl
take_drop (suc n) String.[] = refl
take_drop (suc n) (String.◌∷◌ c s) = ap (λ (xs : List ℕ). code c ∷ xs) (take_drop n s)

length-text_take : (n : ℕ) (s : String) → n ≤ text_length s → text_length (text_take n s) ≡ n
unfolding text_take
length-text_take zero s h = refl
length-text_take (suc n) String.[] h = absurd (omega arith)
length-text_take (suc n) (String.◌∷◌ c s) h = omega (arith, length-text_take n s)

length-text_drop : (n : ℕ) (s : String) → text_length (text_drop n s) ≡ text_length s - n
unfolding text_drop
length-text_drop zero s = omega arith
length-text_drop (suc n) String.[] = omega arith
length-text_drop (suc n) (String.◌∷◌ c s) = omega (arith, length-text_drop n s)

fits_parts :
    (symbol quote : String)
    → fits symbol quote ≡ true
    → (text_length quote < text_length symbol)
      × (text_drop (text_length symbol - text_length quote) symbol ≡ quote)
unfolding fits
fits_parts symbol quote h =
    ground (arith, str_eq_iff (text_drop (text_length symbol - text_length quote) symbol) quote)

split_at-fits :
    (quote : String) (quotes : List String) (symbol : String)
    → fits symbol quote ≡ true
    → split_at (quote ∷ quotes) symbol
      ≡ (text_take (text_length symbol - text_length quote) symbol, quote)
unfolding split_at
split_at-fits quote quotes symbol e = rw e refl

split_at_ne :
    (quote : String) (quotes : List String) (symbol : String)
    → fits symbol quote ≡ false
    → split_at (quote ∷ quotes) symbol ≡ split_at quotes symbol
unfolding split_at
split_at_ne quote quotes symbol e = rw e refl

longer_list :
    (quote : String) (quotes : List String) (symbol : String) (parts : String × String)
    → fits symbol quote ≡ false
    → Splits quotes symbol parts
    → Splits (quote ∷ quotes) symbol parts
longer_list quote quotes symbol parts e (whole, inl (listed, some_base)) =
    (whole, inl (inr listed, some_base))
longer_list quote quotes symbol parts e (whole, inr (none_fits, last)) =
    (whole, inr ((e, none_fits), last))

split_at-Splits :
    (quotes : List String) (symbol : String) → Splits quotes symbol (split_at quotes symbol)
split_at-Splits [] symbol =
    unfold split_at in
    (
      take_drop (text_length symbol - 3) symbol,
      inr (tt, omega (arith, length-text_drop (text_length symbol - 3) symbol)),
    )
split_at-Splits (quote ∷ quotes) symbol = elim (Bool-cases (fits symbol quote)) [
  | inl e ↦
      let n = text_length symbol - text_length quote in
      let (longer, same) = fits_parts symbol quote e in
      subst (Splits (quote ∷ quotes) symbol) (sym (split_at-fits quote quotes symbol e)) (
        ap (λ q. codes (text_take n symbol) ++ codes q) (sym same) ∙ take_drop n symbol,
        inl (inl refl, omega (arith, length-text_take n symbol)),
      )
  | inr e ↦
      subst (Splits (quote ∷ quotes) symbol) (sym (split_at_ne quote quotes symbol e))
        (longer_list quote quotes symbol (split_at quotes symbol) e (split_at-Splits quotes symbol))
]

-- For every symbol, `split_symbol` loses no character: base and quote together are the symbol. Either
-- the quote is a known one and the base is not empty, or no known quote fits and the quote is the last
-- three characters, or all of a shorter symbol.
pub split_symbol-Splits : (symbol : String) → Splits known_quotes symbol (split_symbol symbol)
unfolding split_symbol
split_symbol-Splits symbol = split_at-Splits known_quotes symbol
