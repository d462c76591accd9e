-- ===== src/Schedule/Validation/Accepting.antt =====
-- What it means that a date and a time are accepted.
use chokobot.Clock.{Codes, Digits, lex_le, parse_hora}
use chokobot.Schedule.Dates.{Date, is_date, weekday}
use chokobot.Schedule.ServiceDate.{parse_service_date, format_service_date}
use chokobot.Schedule.ServiceDate.Reading.{
  parse_service_date-format_service_date, parse_service_date_valid,
}
use chokobot.Schedule.Calendar.{
  is_yes, special_hours, Entry, Window, blocked_service_date_entry, operational_day_override,
  store_window_for_date,
}
use chokobot.Schedule.Capacity.{capacity_violation}
use chokobot.Schedule.Capacity.Room.{HasRoom, capacity_violation-HasRoom}
use chokobot.Schedule.Validation.{
  Schedule, closing_override, opens_sunday, capacity_error, date_error, validate_service_date,
  hour_error, error_or, schedule_error, validate_service_schedule,
}
use chokobot.Common.{
  ◌≡◌, ◌≢◌, sym, refl, Bool, true, false, not, ◌&&◌, Option, none, some, [], ◌↔◌, inl, inr,
  if◌then◌else◌, leb, ◌==◌, Option-cases, Bool-cases,
}

-- an override with an opening and a closing hour
pub OpensSpecially : Digits → Option Entry → Type 0
OpensSpecially digits override =
    (entry : Entry) × (window : Window) × (override ≡ some entry)
    × (special_hours digits entry ≡ some window)

-- What a date satisfies that is served: it is not blocked and no override closes it, a Sunday has an
-- override with hours, and the day has room.
pub record ServesDate (digits : Digits) (s : Schedule) (t : Date) : Type 0 where
  pub not_blocked : blocked_service_date_entry digits s.calendar t ≡ none
  pub not_closed :
      (override : Entry)
      → operational_day_override digits s.calendar t ≡ some override
      → is_yes override.closed ≡ false
  pub not_sunday :
      (weekday t == 6) ≡ true → OpensSpecially digits (operational_day_override digits s.calendar t)
  pub day_room : HasRoom digits s.normalize_text s.rows t none s.calendar.slot_capacities

-- What a time satisfies that is kept: it lies in the opening hours of the day, if it has any, and has
-- room as well.
pub record KeepsHours (digits : Digits) (s : Schedule) (t : Date) (time : Codes) : Type 0 where
  pub in_hours :
      (window : Window)
      → store_window_for_date digits s.windows s.calendar t ≡ some window
      → (lex_le window.0 time ≡ true)
        × (lex_le time window.1 ≡ true)
        × HasRoom digits s.normalize_text s.rows t
            (parse_hora digits time)
            s.calendar.slot_capacities

false-true : false ≡ true → ⊥
false-true h = cc

some-none : {A : Type 0} {a : A} → some a ≢ none
some-none h = cc

closing_override-none :
    (o : Option Entry)
    → closing_override o ≡ none
    → (override : Entry) → o ≡ some override
    → is_yes override.closed ≡ false
unfolding closing_override
closing_override-none o h override e = elim (Bool-cases (is_yes override.closed)) [
  | inl shut ↦ absurd (some-none (rw (e, closing_override, shut) at h))
  | inr served ↦ served
]

none-closing_override :
    (o : Option Entry)
    → ((override : Entry) → o ≡ some override → is_yes override.closed ≡ false)
    → closing_override o ≡ none
unfolding closing_override
none-closing_override none h = refl
none-closing_override (some override) h = rw (closing_override, h override refl) refl

opens_sunday-OpensSpecially :
    (digits : Digits) (s : Schedule) (o : Option Entry)
    → opens_sunday digits s o ≡ true
    → OpensSpecially digits o
unfolding opens_sunday OpensSpecially
opens_sunday-OpensSpecially digits s none h = absurd cc
opens_sunday-OpensSpecially digits s (some override) h =
    elim (Option-cases (special_hours digits override)) [
      | inl e ↦ absurd (false-true (rw (opens_sunday, e) at h))
      | inr (window, e) ↦ (override, window, refl, e)
    ]

OpensSpecially-opens_sunday :
    (digits : Digits) (s : Schedule) (o : Option Entry)
    → OpensSpecially digits o
    → opens_sunday digits s o ≡ true
unfolding opens_sunday OpensSpecially
OpensSpecially-opens_sunday digits s o (override, window, e, f) = rw (e, opens_sunday, f) refl

-- a refusal under a test and an exception from it
refusal :
    (b c : Bool) (m : Codes) (o : Option Codes)
    → (if b && not c then some m else o) ≡ none
    → (b ≡ true → c ≡ true) × (o ≡ none)
refusal true true m o h = (λ e. refl, h)
refusal true false m o h = absurd (some-none h)
refusal false c m o h = (λ e. absurd cc, h)

inside :
    (a b : Bool) (m : Codes) (o : Option Codes)
    → (if a && b then o else some m) ≡ none
    → (a ≡ true) × (b ≡ true) × (o ≡ none)
inside true true m o h = (refl, refl, h)
inside true false m o h = absurd (some-none h)
inside false b m o h = absurd (some-none h)

no_refusal :
    (b c : Bool) (m : Codes) (o : Option Codes)
    → (b ≡ true → c ≡ true)
    → o ≡ none
    → (if b && not c then some m else o) ≡ none
no_refusal true c m o h e = rw (h refl) e
no_refusal false c m o h e = e

module _ (digits : Digits) (s : Schedule) (plain : s.normalize_text [] ≡ []) where
  parse_hora_empty : parse_hora digits [] ≡ none
  unfolding parse_hora
  parse_hora_empty = refl

  capacity_error-none :
      (t : Date) (horario : Codes)
      → (capacity_error digits s t horario ≡ none)
        ↔ HasRoom digits s.normalize_text s.rows t
            (parse_hora digits horario)
            s.calendar.slot_capacities
  unfolding capacity_error
  capacity_error-none t horario =
      let room =
        capacity_violation-HasRoom digits s.normalize_text s.rows t s.calendar horario plain in
      elim (Option-cases
        (capacity_violation digits s.normalize_text s.rows s.calendar t horario [])) [
          | inl e ↦ (λ h. room.0 e, λ h. rw (capacity_error, e) refl)
          | inr (v, e) ↦ (
            λ h. absurd (some-none (rw (capacity_error, e) at h)),
            λ h. absurd (some-none (rw (room.1 h) at (sym e))),
          )
        ]

  date_error-ServesDate : (t : Date) → date_error digits s t ≡ none → ServesDate digits s t
  unfolding date_error
  date_error-ServesDate t h = elim (Option-cases (blocked_service_date_entry digits s.calendar t)) [
    | inr (entry, b) ↦ absurd (some-none (rw (date_error, b) at h))
    | inl b ↦
        elim (Option-cases (closing_override (operational_day_override digits s.calendar t))) [
          | inr (override, c) ↦ absurd (some-none (rw (date_error, b, c) at h))
          | inl c ↦
              let (sunday, room) = refusal _ _ _ _ (rw (date_error, b, c) at h) in
              record {
                not_blocked = b;
                not_closed = closing_override-none _ c;
                not_sunday = λ e. opens_sunday-OpensSpecially digits s _ (sunday e);
                day_room = (capacity_error-none t []).0 room;
              }
        ]
  ]

  ServesDate-date_error : (t : Date) → ServesDate digits s t → date_error digits s t ≡ none
  unfolding date_error
  ServesDate-date_error t d =
      rw (date_error, d.not_blocked, none-closing_override _ d.not_closed)
        (no_refusal _ _ _ _ (λ e. OpensSpecially-opens_sunday digits s _ (d.not_sunday e))
          ((capacity_error-none t []).1 d.day_room))

  validate_service_date-format_service_date :
      (t : Date)
      → is_date t ≡ true
      → date_error digits s t ≡ none
      → validate_service_date digits s (format_service_date t) ≡ none
  unfolding validate_service_date
  validate_service_date-format_service_date t v h = elim (Bool-cases (leb 1000 t.year)) [
    | inl e ↦ rw (validate_service_date, parse_service_date-format_service_date digits t v, e) h
    | inr e ↦ rw (validate_service_date, parse_service_date-format_service_date digits t v, e) refl
  ]

  hour_error-KeepsHours :
      (t : Date) (time : Codes) → hour_error digits s t time ≡ none → KeepsHours digits s t time
  unfolding hour_error
  hour_error-KeepsHours t time h = record {
    in_hours = λ window e.
        let (a, b, free) = inside _ _ _ _ (rw (hour_error, e) at h) in
        (a, b, (capacity_error-none t time).0 free);
  }

  KeepsHours-hour_error :
      (t : Date) (time : Codes)
      → is_date t ≡ true
      → ServesDate digits s t
      → KeepsHours digits s t time
      → hour_error digits s t time ≡ none
  unfolding hour_error
  KeepsHours-hour_error t time v d k =
      elim (Option-cases (store_window_for_date digits s.windows s.calendar t)) [
        | inl e ↦
            rw (hour_error, e, none-closing_override _ d.not_closed)
              (validate_service_date-format_service_date t v (ServesDate-date_error t d))
        | inr (window, e) ↦
            let (a, b, room) = k.in_hours window e in
            rw (hour_error, e, a, b) ((capacity_error-none t time).1 room)
      ]

  validate_service_schedule_read :
      (value horario : Codes) (t : Date) (time : Codes)
      → parse_service_date digits value ≡ some t
      → parse_hora digits horario ≡ some time
      → validate_service_schedule digits s value horario
        ≡ error_or digits s (date_error digits s t) (hour_error digits s t time)
  unfolding validate_service_schedule validate_service_date
  validate_service_schedule_read value horario t time d e =
      rw (validate_service_schedule, validate_service_date, d, e, schedule_error) refl

  error_or-none : (a b : Option Codes) → error_or digits s a b ≡ none → (a ≡ none) × (b ≡ none)
  unfolding error_or
  error_or-none none b h = (refl, h)
  error_or-none (some a) b h = absurd (some-none h)

  none-error_or : (a b : Option Codes) → a ≡ none → b ≡ none → error_or digits s a b ≡ none
  unfolding error_or
  none-error_or a b p q = rw (p, q) refl

  -- A date and a time that are read are accepted, with no error, exactly when the date is served and the
  -- time keeps the hours of that day.
  pub validate_service_schedule_accepts :
      (value horario : Codes) (t : Date) (time : Codes)
      → parse_service_date digits value ≡ some t
      → parse_hora digits horario ≡ some time
      → (validate_service_schedule digits s value horario ≡ none)
        ↔ (ServesDate digits s t × KeepsHours digits s t time)
  validate_service_schedule_accepts value horario t time d e =
      let v = parse_service_date_valid digits value t d in
      rw (validate_service_schedule_read value horario t time d e) (
        λ h.
            let (a, b) = error_or-none _ _ h in
            (date_error-ServesDate t a, hour_error-KeepsHours t time b),
        λ (served, kept).
            none-error_or _ _ (ServesDate-date_error t served)
              (KeepsHours-hour_error t time v served kept),
      )
