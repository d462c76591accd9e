-- ===== src/Schedule/Dates/Resolve.antt =====
-- A day of the month is found in at most three of the twenty-four rounds, and it is the first one.
use chokobot.Schedule.Dates.{
  Date, is_date, date, date_ge, choose, resolve_rounds, resolve_day_of_month,
}
use mathlib.Core.Path.{subst}
use chokobot.Common.{
  ℕ, zero, suc, ◌+◌, ◌*◌, ◌≤◌, ◌<◌, ◌≡◌, ◌≢◌, refl, sym, Bool, true, false, Option, none, some,
  arith, is_some, ltb, if◌then◌else◌, Bool-cases, Option-cases, inl, inr, ◌⊎◌,
}

-- the first date with a day, not before a reference
pub record IsFirst (day : ℕ) (reference found : Date) : Type 0 where
  pub is_valid : is_date found ≡ true
  pub same_day : found.day ≡ day
  pub not_before : date_ge found reference ≡ true
  pub first :
      (other : Date)
      → is_date other ≡ true
      → other.day ≡ day
      → date_ge other reference ≡ true
      → date_ge other found ≡ true

-- what a search from one month on finds, if it finds a date
Finds : ℕ → Date → ℕ → ℕ → Option Date → Type 0
Finds day reference year month none = Unit
Finds day reference year month (some found) =
    (is_date found ≡ true)
    × (found.day ≡ day)
    × (date_ge found reference ≡ true)
    × ((other : Date)
        → is_date other ≡ true
        → other.day ≡ day
        → date_ge other reference ≡ true
        → year * 12 + month ≤ other.year * 12 + other.month
        → date_ge other found ≡ true)

-- a month in which no date will do can be left out
Finds-later :
    (day : ℕ) (reference : Date) (y m y' m' : ℕ) (o : Option Date)
    → y' * 12 + m' ≡ y * 12 + m + 1
    → ((other : Date)
        → is_date other ≡ true
        → other.day ≡ day
        → date_ge other reference ≡ true
        → other.year * 12 + other.month ≢ y * 12 + m)
    → Finds day reference y' m' o
    → Finds day reference y m o
unfolding Finds
Finds-later day reference y m y' m' none next hopeless f = tt
Finds-later day reference y m y' m' (some found) next hopeless (v, d, g, l) =
    (v, d, g, λ other p q r late. l other p q r (omega (arith, next, late, hopeless other p q r)))

-- two dates of one month and one day are one
same_day_of_month :
    (other : Date) (y m d : ℕ)
    → is_date other ≡ true
    → 1 ≤ m
    → m ≤ 12
    → other.day ≡ d
    → other.year * 12 + other.month ≡ y * 12 + m
    → record { year = y; month = m; day = d } ≡ other
unfolding is_date
same_day_of_month other y m d v p q e k =
    let ey : y ≡ other.year = ground arith in
    let em : m ≡ other.month = ground arith in rw (ey, em, sym e) refl

date_ge-later :
    (other : Date) (y m d : ℕ)
    → is_date other ≡ true
    → 1 ≤ m
    → m ≤ 12
    → other.day ≡ d
    → y * 12 + m ≤ other.year * 12 + other.month
    → date_ge other (record { year = y; month = m; day = d }) ≡ true
unfolding is_date date_ge
date_ge-later other y m d v p q e k = ground arith

clash : {A : Type 0} (f : A → Bool) (x y : A) → x ≡ y → f x ≡ false → f y ≡ true → ⊥
clash f x y e p q = cc

date-cases :
    (y m d : ℕ)
    → ((is_date (record { year = y; month = m; day = d }) ≡ false) × (date y m d ≡ none))
      ⊎ ((is_date (record { year = y; month = m; day = d }) ≡ true)
          × (date y m d ≡ some (record { year = y; month = m; day = d })))
unfolding date
date-cases y m d = elim (Bool-cases (is_date (record { year = y; month = m; day = d }))) [
  | inl e ↦ inr (e, rw e refl)
  | inr e ↦ inl (e, rw e refl)
]

rounds-Finds :
    (n day : ℕ) (reference : Date) (y m : ℕ)
    → 1 ≤ m
    → m ≤ 12
    → Finds day reference y m (resolve_rounds n day reference y m)
unfolding Finds resolve_rounds choose
rounds-Finds zero day reference y m p q = tt
rounds-Finds (suc n) day reference y m p q =
    let later =
      if ltb 12 (m + 1)
      then resolve_rounds n day reference (y + 1) 1
      else resolve_rounds n day reference y (m + 1) in
    let next_year = rounds-Finds n day reference (y + 1) 1 (omega arith) (omega arith) in
    let this_year = rounds-Finds n day reference y (m + 1) (omega arith) in
    let finds_later : ((other : Date)
          → is_date other ≡ true
          → other.day ≡ day
          → date_ge other reference ≡ true
          → other.year * 12 + other.month ≢ y * 12 + m)
        → Finds day reference y m later =
      λ hopeless. elim (Bool-cases (ltb 12 (m + 1))) [
        | inl december ↦
            rw december
              (Finds-later day reference y m (y + 1) 1 _ (ground arith) hopeless next_year)
        | inr before ↦ rw before (
            Finds-later day reference y m y (m + 1) _ (omega arith) hopeless
              (this_year (ground arith)))
      ] in
    elim (date-cases y m day) [
      | inl (v, e) ↦
          rw (e, resolve_rounds)
            (finds_later λ other a b c k.
              clash is_date _ other (same_day_of_month other y m day a p q b k) v a)
      | inr (v, e) ↦
          elim (Bool-cases (date_ge (record { year = y; month = m; day = day }) reference)) [
            | inl fits ↦
                rw (e, resolve_rounds, fits)
                  (v, refl, fits, λ other a b c late. date_ge-later other y m day a p q b late)
            | inr early ↦
                rw (e, resolve_rounds, early)
                  (finds_later λ other a b c k.
                    clash (λ t. date_ge t reference) _ other
                      (same_day_of_month other y m day a p q b k) early c)
          ]
    ]

valid_soon :
    (y m d : ℕ)
    → 1 ≤ y
    → y < 9999
    → 1 ≤ m
    → m ≤ 12
    → 1 ≤ d
    → d ≤ 31
    → (is_date (record { year = y; month = m; day = d }) ≡ true)
      ⊎ (is_date (record {
        year = (if ltb 12 (m + 1) then y + 1 else y);
        month = (if ltb 12 (m + 1) then 1 else m + 1);
        day = d;
      })
          ≡ true)
unfolding is_date
valid_soon y m d a b c e f g = ground arith

is_some-choose :
    (reference : Date) (o rest : Option Date)
    → is_some rest ≡ true
    → is_some (choose reference o rest) ≡ true
unfolding choose
is_some-choose reference none rest h = h
is_some-choose reference (some c) rest h = ground arith

-- a round that finds its date
found_here :
    (n : ℕ) (reference : Date) (y m d : ℕ)
    → is_date (record { year = y; month = m; day = d }) ≡ true
    → date_ge (record { year = y; month = m; day = d }) reference ≡ true
    → is_some (resolve_rounds (suc n) d reference y m) ≡ true
unfolding resolve_rounds
found_here n reference y m d v late = elim (date-cases y m d) [
  | inl (invalid, e) ↦ absurd (clash (λ b. b) _ _ refl invalid v)
  | inr (valid, e) ↦ rw (e, choose, late) refl
]

-- a round after which a date is found
found_later :
    (n : ℕ) (reference : Date) (y m d : ℕ)
    → is_some (
        if ltb 12 (m + 1)
        then resolve_rounds n d reference (y + 1) 1
        else resolve_rounds n d reference y (m + 1))
      ≡ true
    → is_some (resolve_rounds (suc n) d reference y m) ≡ true
unfolding resolve_rounds
found_later n reference y m d h = is_some-choose reference (date y m d) _ h

date_ge-month :
    (reference : Date) (y m d : ℕ)
    → 1 ≤ reference.month
    → reference.month ≤ 12
    → m ≤ 12
    → reference.year * 12 + reference.month < y * 12 + m
    → date_ge (record { year = y; month = m; day = d }) reference ≡ true
unfolding date_ge
date_ge-month reference y m d p q r k = ground arith

-- in a month after the reference's, two rounds are enough
found_after :
    (n : ℕ) (reference : Date) (y m d : ℕ)
    → 1 ≤ reference.month
    → reference.month ≤ 12
    → reference.year * 12 + reference.month < y * 12 + m
    → 1 ≤ y
    → y < 9999
    → 1 ≤ m
    → m ≤ 12
    → 1 ≤ d
    → d ≤ 31
    → is_some (resolve_rounds (suc (suc n)) d reference y m) ≡ true
found_after n reference y m d s r k a b c e f g = elim (valid_soon y m d a b c e f g) [
  | inl here ↦ found_here (suc n) reference y m d here (date_ge-month reference y m d s r e k)
  | inr next ↦ found_later (suc n) reference y m d (elim (Bool-cases (ltb 12 (m + 1))) [
    | inl december ↦ rw december (
        found_here n reference (y + 1) 1 d (rw december at next)
          (date_ge-month reference (y + 1) 1 d s r (omega arith) (omega arith)))
    | inr before ↦ rw before (
        found_here n reference y (m + 1) d (rw before at next)
          (date_ge-month reference y (m + 1) d s r (ground arith) (omega arith)))
  ])
]

resolve_day_of_month-some :
    (day : ℕ) (reference : Date)
    → is_date reference ≡ true
    → reference.year < 9998
    → 1 ≤ day
    → day ≤ 31
    → is_some (resolve_day_of_month day reference) ≡ true
unfolding resolve_day_of_month is_date
resolve_day_of_month-some day reference v p q r =
    found_later 23 reference reference.year reference.month day
      (elim (Bool-cases (ltb 12 (reference.month + 1))) [
        | inl december ↦ rw december (
            found_after 21 reference (reference.year + 1) 1 day (ground arith) (ground arith)
              (ground arith) (omega arith) (omega arith) (omega arith) (omega arith) q r)
        | inr before ↦ rw before (
            found_after 21 reference reference.year (reference.month + 1) day (ground arith)
              (ground arith) (omega arith) (ground arith) (omega arith) (omega arith) (ground arith)
              q r)
      ])

is_some-none : {A : Type 0} {o : Option A} → o ≡ none → is_some o ≡ true → ⊥
is_some-none e h = cc

months : (t : Date) → is_date t ≡ true → (1 ≤ t.month) × (t.month ≤ 12)
unfolding is_date
months t v = (ground arith, ground arith)

date_ge-months :
    (other reference : Date)
    → is_date other ≡ true
    → is_date reference ≡ true
    → date_ge other reference ≡ true
    → reference.year * 12 + reference.month ≤ other.year * 12 + other.month
unfolding is_date date_ge
date_ge-months other reference v w p = ground arith

IsFirst-of :
    (day : ℕ) (reference found : Date)
    → is_date reference ≡ true
    → Finds day reference reference.year reference.month (some found)
    → IsFirst day reference found
unfolding Finds
IsFirst-of day reference found w (v, d, g, l) = record {
  is_valid = v;
  same_day = d;
  not_before = g;
  first = λ other p q r. l other p q r (date_ge-months other reference p w r);
}

-- For a day from 1 to 31, and a reference before the year 9998, the search ends with a date: the first
-- date with that day that is not before the reference.
pub resolve_day_of_month-IsFirst :
    (day : ℕ) (reference : Date)
    → is_date reference ≡ true
    → reference.year < 9998
    → 1 ≤ day
    → day ≤ 31
    → (found : Date) × (resolve_day_of_month day reference ≡ some found)
      × IsFirst day reference found
unfolding resolve_day_of_month Finds
resolve_day_of_month-IsFirst day reference v p q r =
    elim (Option-cases (resolve_day_of_month day reference)) [
      | inl nothing ↦
          absurd (is_some-none nothing (resolve_day_of_month-some day reference v p q r))
      | inr (found, e) ↦ (
        found,
        e,
        IsFirst-of day reference found v (
            subst (Finds day reference reference.year reference.month) e (
              rounds-Finds 24 day reference reference.year reference.month (months reference v).0
                (months reference v).1)),
      )
    ]
