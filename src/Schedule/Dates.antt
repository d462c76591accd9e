-- ===== src/Schedule/Dates.antt =====
-- Dates of the Gregorian calendar as Python's `datetime.date` has them, and the dates that
-- `_build_future_date`, `_resolve_day_of_month` and `_next_or_same_weekday` of
-- app/services/store_schedule.py choose.
pub mod Resolve
pub mod Weekdays
use chokobot.Common.{
  ℕ, zero, suc, ◌+◌, ◌-◌, ◌*◌, ◌/◌, ◌%◌, ◌≤◌, ◌≡◌, Bool, true, false, ◌&&◌, ◌||◌, Option, none,
  some, List, [], ◌∷◌, is_some, leb, ltb, ◌==◌, if◌then◌else◌,
}

pub record Date : Type 0 where
  pub year : ℕ
  pub month : ℕ
  pub day : ℕ

unfoldable pub is_leap : ℕ → Bool
is_leap y = y % 4 == 0 && (ltb 0 (y % 100) || y % 400 == 0)

unfoldable pub days_in_month : ℕ → ℕ → ℕ
days_in_month y m =
    if m == 2
    then (if is_leap y then 29 else 28)
    else if m == 4 || (m == 6 || (m == 9 || m == 11))
    then 30
    else 31

-- whether `date(y, m, d)` raises no `ValueError`
unfoldable pub is_date : Date → Bool
unfolding days_in_month
is_date t =
    leb 1 t.year
    && (leb t.year 9999
        && (leb 1 t.month
            && (leb t.month 12 && (leb 1 t.day && leb t.day (days_in_month t.year t.month)))))

-- `date(y, m, d)`, or its `ValueError`
unfoldable pub date : ℕ → ℕ → ℕ → Option Date
unfolding is_date
date y m d =
    let t : Date = record { year = y; month = m; day = d } in if is_date t then some t else none

-- `a >= b`
unfoldable pub date_ge : Date → Date → Bool
date_ge a b =
    ltb b.year a.year
    || (a.year == b.year && (ltb b.month a.month || (a.month == b.month && leb b.day a.day)))

-- the loop over the candidate years
pub first_candidate : ℕ → ℕ → Date → Bool → List ℕ → Option Date
unfolding date date_ge
first_candidate day month reference given [] = none
first_candidate day month reference given (y ∷ ys) =
    let rest = first_candidate day month reference given ys in
    elim (date y month day) [
      | none ↦ rest
      | some candidate ↦ if date_ge candidate reference || given then some candidate else rest
    ]

abbrev candidate_years : Date → Option ℕ → List ℕ
candidate_years reference none = reference.year ∷ (reference.year + 1) ∷ []
candidate_years reference (some y) = y ∷ []

unfoldable pub build_future_date : ℕ → ℕ → Date → Option ℕ → Option Date
unfolding first_candidate
build_future_date day month reference year =
    first_candidate day month reference (is_some year) (candidate_years reference year)

-- a candidate that is there and not too early, or the rest of the loop
unfoldable pub choose : Date → Option Date → Option Date → Option Date
choose reference none rest = rest
choose reference (some candidate) rest =
    if date_ge candidate reference then some candidate else rest

-- the rounds of the loop that are left, from one month on
unfoldable pub resolve_rounds : ℕ → ℕ → Date → ℕ → ℕ → Option Date
unfolding choose
resolve_rounds zero day reference year month = none
resolve_rounds (suc n) day reference year month =
    let rest =
      if ltb 12 (month + 1)
      then resolve_rounds n day reference (year + 1) 1
      else resolve_rounds n day reference year (month + 1) in
    choose reference (date year month day) rest

unfoldable pub resolve_day_of_month : ℕ → Date → Option Date
unfolding resolve_rounds
resolve_day_of_month day reference = resolve_rounds 24 day reference reference.year reference.month

unfoldable pub days_before_year : ℕ → ℕ
days_before_year y = (y - 1) * 365 + (y - 1) / 4 - (y - 1) / 100 + (y - 1) / 400

-- the days of the year before a month
unfoldable pub days_before_month : ℕ → ℕ → ℕ
unfolding days_in_month
days_before_month y zero = 0
days_before_month y (suc zero) = 0
days_before_month y (suc (suc m)) = days_before_month y (suc m) + days_in_month y (suc m)

-- `date.toordinal`
unfoldable pub toordinal : Date → ℕ
unfolding days_before_year days_before_month
toordinal t = days_before_year t.year + days_before_month t.year t.month + t.day

-- `date.weekday`, 0 for Monday
unfoldable pub weekday : Date → ℕ
unfolding toordinal
weekday t = (toordinal t + 6) % 7

-- the day after
unfoldable pub next_day : Date → Date
unfolding days_in_month
next_day t =
    if ltb t.day (days_in_month t.year t.month)
    then (record { year = t.year; month = t.month; day = t.day + 1 })
    else if ltb t.month 12
    then (record { year = t.year; month = t.month + 1; day = 1 })
    else (record { year = t.year + 1; month = 1; day = 1 })

-- `t + timedelta(days=n)`, or its `OverflowError` after the year 9999
unfoldable pub add_days : ℕ → Date → Option Date
unfolding next_day
add_days zero t = some t
add_days (suc n) t =
    let after = next_day t in
    let rest = add_days n after in if leb after.year 9999 then rest else none

-- `(weekday - reference.weekday()) % 7`
unfoldable pub days_to_weekday : Date → ℕ → ℕ
unfolding weekday
days_to_weekday reference day = (day % 7 + 7 - weekday reference) % 7

unfoldable pub next_or_same_weekday : Date → ℕ → Option Date
unfolding days_to_weekday add_days
next_or_same_weekday reference day = add_days (days_to_weekday reference day) reference
