-- ===== src/Datetime/Calendar.antt =====
-- Dates of the Gregorian calendar, and `datetime.fromisoformat` on a text of the form YYYY-MM-DD.
use crypto_analytics_platfor.Base.{
  ℕ, zero, suc, ◌+◌, ◌-◌, ◌*◌, ◌/◌, ◌%◌, String, Bool, false, not, ◌&&◌, ◌||◌, List, [], ◌∷◌,
  Option, none, some, leb, ◌==◌, if◌then◌else◌, length, take, drop, ◌≡◌, refl,
}
use crypto_analytics_platfor.Base.Texts.{codes}
use crypto_analytics_platfor.Datetime.{Datetime}

-- Microseconds in a day.
abbrev pub day : ℕ
day = 86400000000

abbrev pub is_leap : ℕ → Bool
is_leap y = y % 4 == 0 && (not (y % 100 == 0) || y % 400 == 0)

abbrev pub days_in_month : ℕ → ℕ → ℕ
days_in_month y m =
    if m == 2
    then (if is_leap y then 29 else 28)
    else if m == 4 || m == 6 || m == 9 || m == 11
    then 30
    else 31

-- The days of a year before its month `m + 1`.
abbrev pub days_before_month : ℕ → ℕ → ℕ
days_before_month y zero = 0
days_before_month y (suc m) = days_before_month y m + days_in_month y (suc m)

abbrev pub days_before_year : ℕ → ℕ
days_before_year y = (y - 1) * 365 + (y - 1) / 4 + (y - 1) / 400 - (y - 1) / 100

-- The start of a day, if it is one.
unfoldable pub date : ℕ → ℕ → ℕ → Option Datetime
date y m d =
    if leb 1 y && leb 1 m && leb m 12 && leb 1 d && leb d (days_in_month y m)
    then some ((days_before_year y + days_before_month y (m - 1) + (d - 1)) * day)
    else none

-- The number that a row of digits writes, behind `n`.
abbrev pub digits : ℕ → List ℕ → Option ℕ
digits n [] = some n
digits n (c ∷ cs) = if leb 48 c && leb c 57 then digits (n * 10 + (c - 48)) cs else none

-- A hyphen at places 4 and 7 of ten characters.
unfoldable pub is_plain_date : String → Bool
is_plain_date s = length (codes s) == 10 && hyphen (drop 4 (codes s)) && hyphen (drop 7 (codes s))
  where
    hyphen : List ℕ → Bool
    hyphen [] = false
    hyphen (c ∷ cs) = c == 45

abbrev pub date_of : Option ℕ → Option ℕ → Option ℕ → Option Datetime
date_of (some y) (some m) (some d) = date y m d
date_of _ _ _ = none

unfoldable pub plain_date : String → Option Datetime
unfolding date
plain_date s =
    date_of (digits 0 (take 4 (codes s))) (digits 0 (take 2 (drop 5 (codes s))))
      (digits 0 (drop 8 (codes s)))

epoch_day : plain_date "1970-01-01" ≡ some 62135596800000000
unfolding plain_date
epoch_day = refl

leap_day : (plain_date "2024-02-29" ≡ some 63844761600000000) × (plain_date "2023-02-29" ≡ none)
unfolding plain_date
leap_day = (refl, refl)
