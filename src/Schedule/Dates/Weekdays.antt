-- ===== src/Schedule/Dates/Weekdays.antt =====
-- The day after is the next ordinal, and the weekday that is asked for comes within a week.
use chokobot.Schedule.Dates.{
  Date, is_leap, days_in_month, is_date, days_before_year, days_before_month, toordinal, weekday,
  next_day, add_days, days_to_weekday, next_or_same_weekday,
}
use chokobot.Common.{
  ℕ, zero, suc, ◌+◌, ◌≤◌, ◌<◌, ◌≡◌, refl, true, false, some, arith, leb, if◌then◌else◌, Bool-cases,
  inl, inr,
}

days_before_year_suc :
    (y : ℕ)
    → 1 ≤ y
    → days_before_year (y + 1) ≡ days_before_year y + (if is_leap y then 366 else 365)
unfolding days_before_year is_leap
days_before_year_suc y p = ground arith

days_in_year : (y : ℕ) → days_before_month y 12 + 31 ≡ (if is_leap y then 366 else 365)
unfolding days_before_month days_in_month
days_in_year y = ground arith

days_before_month_suc :
    (y m : ℕ) → 1 ≤ m → days_before_month y (m + 1) ≡ days_before_month y m + days_in_month y m
unfolding days_before_month
days_before_month_suc y zero p = absurd (omega arith)
days_before_month_suc y (suc m) p = let e : suc m + 1 ≡ suc (suc m) = omega arith in rw e refl

december :
    (y m : ℕ)
    → m ≡ 12
    → days_before_month y m + days_in_month y m ≡ (if is_leap y then 366 else 365)
unfolding days_in_month
december y m e = rw e (days_in_year y)

toordinal-next_day : (t : Date) → is_date t ≡ true → toordinal (next_day t) ≡ toordinal t + 1
unfolding toordinal next_day is_date
toordinal-next_day t v = grind (
  arith,
  days_before_month_suc t.year t.month,
  days_before_year_suc t.year,
  december t.year t.month,
)

last_day :
    (t : Date)
    → is_date t ≡ true
    → is_date (next_day t) ≡ false
    → (t.year ≡ 9999) × (t.month ≡ 12) × (t.day ≡ 31)
unfolding next_day is_date
last_day t v w = (ground arith, ground arith, ground arith)

toordinal_last :
    (t : Date) → (t.year ≡ 9999) × (t.month ≡ 12) × (t.day ≡ 31) → toordinal t ≡ 3652059
unfolding toordinal is_leap
toordinal_last t (y, m, d) = rw (y, m, d) refl

next_day-valid : (t : Date) → is_date t ≡ true → toordinal t < 3652059 → is_date (next_day t) ≡ true
next_day-valid t v p = elim (Bool-cases (is_date (next_day t))) [
  | inl valid ↦ valid
  | inr invalid ↦ absurd (omega (arith, p, toordinal_last t (last_day t v invalid)))
]

year_le : (t : Date) → is_date t ≡ true → leb t.year 9999 ≡ true
unfolding is_date
year_le t v = ground arith

-- a date some days after another
record IsAfter (n : ℕ) (t after : Date) : Type 0 where
  is_valid : is_date after ≡ true
  later : toordinal after ≡ toordinal t + n

-- days that are added, as long as the calendar has them
add_days-IsAfter :
    (n : ℕ) (t : Date)
    → is_date t ≡ true
    → toordinal t + n ≤ 3652059
    → (after : Date) × (add_days n t ≡ some after) × IsAfter n t after
unfolding add_days
add_days-IsAfter zero t v p = (t, refl, record { is_valid = v; later = omega arith })
add_days-IsAfter (suc n) t v p =
    let e = toordinal-next_day t v in
    let w = next_day-valid t v (omega arith) in
    let (after, found, i) = add_days-IsAfter n (next_day t) w (omega (arith, e)) in
    (
      after,
      rw (year_le (next_day t) w) found,
      record { is_valid = i.is_valid; later = omega (arith, e, i.later) },
    )

-- The next day of a week, or the reference itself, is a date of that day within a week from the
-- reference, and the first of that day, as long as the calendar goes on for a week.
pub next_or_same_weekday_lem :
    (reference : Date) (day : ℕ)
    → is_date reference ≡ true
    → day < 7
    → toordinal reference + 6 ≤ 3652059
    → (found : Date) × (next_or_same_weekday reference day ≡ some found)
      × (is_date found ≡ true)
      × (weekday found ≡ day)
      × (toordinal reference ≤ toordinal found)
      × (toordinal found < toordinal reference + 7)
      × ((other : Date)
          → weekday other ≡ day
          → toordinal reference ≤ toordinal other
          → toordinal found ≤ toordinal other)
unfolding next_or_same_weekday days_to_weekday weekday
next_or_same_weekday_lem reference day v p q =
    let k = days_to_weekday reference day in
    let (found, e, i) = add_days-IsAfter k reference v (omega arith) in
    (
      found,
      e,
      i.is_valid,
      omega (arith, i.later),
      omega (arith, i.later),
      omega (arith, i.later),
      λ other d late. omega (arith, i.later),
    )
