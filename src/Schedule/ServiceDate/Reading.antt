-- ===== src/Schedule/ServiceDate/Reading.antt =====
-- A date that is written out and read again.
use chokobot.Clock.{Codes, Digits, two_digits, strip_codes, rstrip_codes, lstrip_codes}
use chokobot.Schedule.Dates.{Date, date, is_date}
use chokobot.Schedule.ServiceDate.{
  plain_year, format_service_date, strptime_day, strptime_month, strptime_year, strptime_dmy,
  strptime_ymd, split_at, date_of, first_date, parse_service_date,
}
use mathlib.Core.Path.{subst}
use chokobot.Common.{
  ℕ, ◌/◌, ◌%◌, ◌≤◌, ◌<◌, ◌≡◌, Option-cases, Bool-cases, inl, inr, refl, is_space, true, Option,
  none, some, leb, if◌then◌else◌, ◌∷◌, ◌++◌, arith,
}

-- what the numbers of a date are
numbers_of :
    (t : Date)
    → is_date t ≡ true
    → (t.year ≤ 9999) × (1 ≤ t.month) × (t.month ≤ 12) × (1 ≤ t.day) × (t.day ≤ 31)
unfolding is_date
numbers_of t v = (ground arith, ground arith, ground arith, ground arith, ground arith)

rstrip_codes-plain_year : (y : ℕ) → y ≤ 9999 → rstrip_codes (47 ∷ plain_year y) ≡ 47 ∷ plain_year y
unfolding rstrip_codes is_space
rstrip_codes-plain_year y p = ground arith

-- what stands before a text that does not end in spaces
rstrip_codes-cons :
    (b c : ℕ) (rest : Codes)
    → rstrip_codes (c ∷ rest) ≡ c ∷ rest
    → rstrip_codes (b ∷ c ∷ rest) ≡ b ∷ c ∷ rest
unfolding rstrip_codes
rstrip_codes-cons b c rest h = rw (h, rstrip_codes) refl

rstrip_codes-two_digits :
    (n c : ℕ) (rest : Codes)
    → rstrip_codes (c ∷ rest) ≡ c ∷ rest
    → rstrip_codes (two_digits n ++ c ∷ rest) ≡ two_digits n ++ c ∷ rest
unfolding rstrip_codes
rstrip_codes-two_digits n c rest h = rw (h, rstrip_codes) refl

lstrip_codes-two_digits :
    (n : ℕ) (rest : Codes) → n ≤ 31 → lstrip_codes (two_digits n ++ rest) ≡ two_digits n ++ rest
unfolding lstrip_codes is_space
lstrip_codes-two_digits n rest h = ground arith

strip_codes-format_service_date :
    (t : Date) → is_date t ≡ true → strip_codes (format_service_date t) ≡ format_service_date t
unfolding strip_codes format_service_date
strip_codes-format_service_date t v =
    let (a, b, c, d, e) = numbers_of t v in
    rw (strip_codes, format_service_date, lstrip_codes-two_digits t.day _ (omega arith))
      (rstrip_codes-two_digits t.day 47 _ (
        rstrip_codes-cons 47 _ _
          (rstrip_codes-two_digits t.month 47 _ (rstrip_codes-plain_year t.year a))))

strptime_month-two_digits : (m : ℕ) → 1 ≤ m → m ≤ 12 → strptime_month (two_digits m) ≡ some m
unfolding strptime_month
strptime_month-two_digits m p q = ground arith

split_at-two_digits :
    (sep n : ℕ) (rest : Codes)
    → sep < 48
    → split_at sep (two_digits n ++ sep ∷ rest) ≡ some (two_digits n, rest)
unfolding split_at
split_at-two_digits sep n rest p = ground arith

first_date-none : (o : Option Date) → first_date o none ≡ o
unfolding first_date
first_date-none none = refl
first_date-none (some t) = refl

module _ (digits : Digits) where
  strptime_day-two_digits : (d : ℕ) → 1 ≤ d → d ≤ 31 → strptime_day digits (two_digits d) ≡ some d
  unfolding strptime_day
  strptime_day-two_digits d p q = ground (arith, digits.decimal_ascii (d % 10))

  strptime_year-plain_year :
      (y : ℕ)
      → y ≤ 9999
      → strptime_year digits (plain_year y) ≡ (if leb 1000 y then some y else none)
  unfolding strptime_year
  strptime_year-plain_year y p = ground (
    arith,
    digits.decimal_ascii (y / 100 / 10),
    digits.decimal_ascii (y / 100 % 10),
    digits.decimal_ascii (y % 100 / 10),
    digits.decimal_ascii (y % 100 % 10),
  )

  date-itself : (t : Date) → is_date t ≡ true → date t.year t.month t.day ≡ some t
  unfolding date
  date-itself t v = rw v refl

  date_of-itself :
      (t : Date)
      → is_date t ≡ true
      → date_of (if leb 1000 t.year then some t.year else none) (some t.month) (some t.day)
        ≡ (if leb 1000 t.year then some t else none)
  unfolding date_of
  date_of-itself t v = elim (Bool-cases (leb 1000 t.year)) [
    | inl e ↦ rw (e, date_of) (date-itself t v)
    | inr e ↦ rw (e, date_of) refl
  ]

  strptime_ymd-format_service_date :
      (t : Date) → is_date t ≡ true → strptime_ymd digits (format_service_date t) ≡ none
  unfolding strptime_ymd format_service_date split_at
  strptime_ymd-format_service_date t v = let (a, b, c, d, e) = numbers_of t v in ground arith

  strptime_dmy-format_service_date :
      (t : Date)
      → is_date t ≡ true
      → strptime_dmy digits (format_service_date t) ≡ (if leb 1000 t.year then some t else none)
  unfolding strptime_dmy format_service_date
  strptime_dmy-format_service_date t v =
      let (a, b, c, d, e) = numbers_of t v in
      let day =
        split_at-two_digits 47 t.day (two_digits t.month ++ 47 ∷ plain_year t.year) (omega arith) in
      let month = split_at-two_digits 47 t.month (plain_year t.year) (omega arith) in
      rw
        (
          strptime_dmy,
          day,
          month,
          strptime_year-plain_year t.year a,
          strptime_month-two_digits t.month b c,
          strptime_day-two_digits t.day d e,
        )
        (date_of-itself t v)

  -- A date of the calendar is read from the text that `format_service_date` writes for it if its year
  -- is 1000 or later; the text of an earlier date, whose year has fewer than four digits, is not read.
  pub parse_service_date-format_service_date :
      (t : Date)
      → is_date t ≡ true
      → parse_service_date digits (format_service_date t)
        ≡ (if leb 1000 t.year then some t else none)
  unfolding parse_service_date first_date
  parse_service_date-format_service_date t v =
      rw
        (
          parse_service_date,
          strip_codes-format_service_date t v,
          strptime_dmy-format_service_date t v,
          strptime_ymd-format_service_date t v,
        )
        (first_date-none (if leb 1000 t.year then some t else none))

-- what a text is read as, if it is read
ReadsDate : Option Date → Type 0
ReadsDate none = Unit
ReadsDate (some t) = is_date t ≡ true

date-ReadsDate : (y m d : ℕ) → ReadsDate (date y m d)
unfolding date ReadsDate
date-ReadsDate y m d = elim (Bool-cases (is_date (record { year = y; month = m; day = d }))) [
  | inl e ↦ rw e e
  | inr e ↦ rw e tt
]

date_of-ReadsDate : (y m d : Option ℕ) → ReadsDate (date_of y m d)
unfolding date_of ReadsDate
date_of-ReadsDate none m d = tt
date_of-ReadsDate (some y) none d = tt
date_of-ReadsDate (some y) (some m) none = tt
date_of-ReadsDate (some y) (some m) (some d) = date-ReadsDate y m d

module _ (digits : Digits) where
  strptime_dmy-ReadsDate : (raw : Codes) → ReadsDate (strptime_dmy digits raw)
  unfolding strptime_dmy ReadsDate
  strptime_dmy-ReadsDate raw = elim (Option-cases (split_at 47 raw)) [
    | inl e ↦ rw (ReadsDate, strptime_dmy, e) tt
    | inr (p, e) ↦ elim (Option-cases (split_at 47 p.1)) [
      | inl f ↦ rw (ReadsDate, strptime_dmy, e, f) tt
      | inr (q, f) ↦
          rw (strptime_dmy, e, f)
            (date_of-ReadsDate (strptime_year digits q.1) (strptime_month q.0)
              (strptime_day digits p.0))
    ]
  ]

  strptime_ymd-ReadsDate : (raw : Codes) → ReadsDate (strptime_ymd digits raw)
  unfolding strptime_ymd ReadsDate
  strptime_ymd-ReadsDate raw = elim (Option-cases (split_at 45 raw)) [
    | inl e ↦ rw (ReadsDate, strptime_ymd, e) tt
    | inr (p, e) ↦ elim (Option-cases (split_at 45 p.1)) [
      | inl f ↦ rw (ReadsDate, strptime_ymd, e, f) tt
      | inr (q, f) ↦
          rw (strptime_ymd, e, f)
            (date_of-ReadsDate (strptime_year digits p.0) (strptime_month q.0)
              (strptime_day digits q.1))
    ]
  ]

  first_date-ReadsDate :
      (o o' : Option Date) → ReadsDate o → ReadsDate o' → ReadsDate (first_date o o')
  unfolding first_date ReadsDate
  first_date-ReadsDate none o' p q = q
  first_date-ReadsDate (some t) o' p q = p

  -- Whatever text is read as a date, the date is one of the calendar.
  pub parse_service_date_valid :
      (value : Codes) (t : Date) → parse_service_date digits value ≡ some t → is_date t ≡ true
  unfolding parse_service_date ReadsDate
  parse_service_date_valid value t e =
      let raw = strip_codes value in
      subst ReadsDate e
        (first_date-ReadsDate _ _ (strptime_dmy-ReadsDate raw) (strptime_ymd-ReadsDate raw))
