-- ===== src/Schedule/ServiceDate.antt =====
-- Dates as texts: `parse_service_date`, `format_service_date`, `format_service_date_with_weekday` and
-- `is_sunday_service_date` of app/services/store_schedule.py.
pub mod Reading
use chokobot.Clock.{Codes, Digits, digit, number, two_digits, strip_codes}
use chokobot.Schedule.Week.{day_title}
use chokobot.Schedule.Dates.{Date, date, weekday}
use chokobot.Common.{
  ℕ, ◌+◌, ◌-◌, ◌*◌, ◌/◌, ◌%◌, Bool, false, ◌&&◌, ◌||◌, Option, none, some, List, [], ◌∷◌, ◌++◌,
  codes, leb, ltb, ◌==◌, if◌then◌else◌,
}

-- the year, as `isoformat` writes it
abbrev pub four_digits : ℕ → Codes
four_digits n = two_digits (n / 100) ++ two_digits (n % 100)

-- the year, as `%Y` writes it on Linux: with no zeros before a year below 1000
abbrev pub plain_year : ℕ → Codes
plain_year n =
    if leb 1000 n
    then four_digits n
    else if leb 100 n
    then (48 + n / 100) ∷ two_digits (n % 100)
    else if leb 10 n
    then two_digits n
    else (48 + n) ∷ []

-- `value.strftime("%d/%m/%Y")`
unfoldable pub format_service_date : Date → Codes
format_service_date t = two_digits t.day ++ 47 ∷ two_digits t.month ++ 47 ∷ plain_year t.year

-- `value.isoformat()`
unfoldable pub isoformat_date : Date → Codes
isoformat_date t = four_digits t.year ++ 45 ∷ two_digits t.month ++ 45 ∷ two_digits t.day

unfoldable pub format_service_date_with_weekday : Date → Option Codes
unfolding format_service_date weekday day_title
format_service_date_with_weekday t = elim (day_title (weekday t)) [
  | none ↦ none
  | some title ↦ some (format_service_date t ++ 32 ∷ 40 ∷ codes title ++ 41 ∷ [])
]

-- %m, `1[0-2]|0[1-9]|[1-9]`
unfoldable pub strptime_month : Codes → Option ℕ
strptime_month (b ∷ []) = if leb 49 b && leb b 57 then some (b - 48) else none
strptime_month (a ∷ b ∷ []) =
    if (a == 49 && (leb 48 b && leb b 50)) || (a == 48 && (leb 49 b && leb b 57))
    then some ((a - 48) * 10 + (b - 48))
    else none
strptime_month _ = none

-- the text before a separator, and the text after it
pub split_at : ℕ → Codes → Option (Codes × Codes)
split_at sep [] = none
split_at sep (c ∷ cs) =
    let rest = split_at sep cs in
    if c == sep then some ([], cs) else elim rest [ none ↦ none | some (a, b) ↦ some (c ∷ a, b) ]

unfoldable pub date_of : Option ℕ → Option ℕ → Option ℕ → Option Date
unfolding date
date_of (some y) (some m) (some d) = date y m d
date_of _ _ _ = none

unfoldable pub first_date : Option Date → Option Date → Option Date
first_date (some t) other = some t
first_date none other = other

module _ (digits : Digits) where
  -- %d, `3[0-1]|[1-2]\d|0[1-9]|[1-9]| [1-9]`
  unfoldable pub strptime_day : Codes → Option ℕ
  strptime_day (b ∷ []) = if leb 49 b && leb b 57 then some (b - 48) else none
  strptime_day (a ∷ b ∷ []) =
      if leb 49 a && leb a 50
      then number (some (a - 48)) (digit digits b)
      else if a == 51 && (leb 48 b && leb b 49)
      then some (30 + (b - 48))
      else if (a == 48 || a == 32) && (leb 49 b && leb b 57)
      then some (b - 48)
      else none
  strptime_day _ = none

  -- %Y, `\d\d\d\d`
  unfoldable pub strptime_year : Codes → Option ℕ
  strptime_year (a ∷ b ∷ c ∷ d ∷ []) = elim (number (digit digits a) (digit digits b)) [
    | none ↦ none
    | some hi ↦ elim (number (digit digits c) (digit digits d)) [
      | none ↦ none
      | some lo ↦ some (hi * 100 + lo)
    ]
  ]
  strptime_year _ = none

  -- `datetime.strptime(raw, "%d/%m/%Y").date()`
  unfoldable pub strptime_dmy : Codes → Option Date
  unfolding strptime_day strptime_month strptime_year date_of split_at
  strptime_dmy raw = elim (split_at 47 raw) [
    | none ↦ none
    | some (d, rest) ↦ elim (split_at 47 rest) [
      | none ↦ none
      | some (m, y) ↦ date_of (strptime_year y) (strptime_month m) (strptime_day d)
    ]
  ]

  -- `datetime.strptime(raw, "%Y-%m-%d").date()`
  unfoldable pub strptime_ymd : Codes → Option Date
  unfolding strptime_day strptime_month strptime_year date_of split_at
  strptime_ymd raw = elim (split_at 45 raw) [
    | none ↦ none
    | some (y, rest) ↦ elim (split_at 45 rest) [
      | none ↦ none
      | some (m, d) ↦ date_of (strptime_year y) (strptime_month m) (strptime_day d)
    ]
  ]

  unfoldable pub parse_service_date : Codes → Option Date
  unfolding strip_codes strptime_dmy strptime_ymd first_date
  parse_service_date value =
      let raw = strip_codes value in first_date (strptime_dmy raw) (strptime_ymd raw)

  unfoldable pub is_sunday_service_date : Codes → Bool
  unfolding parse_service_date
  is_sunday_service_date value = elim (parse_service_date value) [
    | none ↦ false
    | some t ↦ weekday t == 6
  ]
