-- ===== src/Schedule/Validation.antt =====
-- Whether the store takes an order for a date and a time: `validate_service_date` and
-- `validate_service_schedule` of app/services/store_schedule.py, with the texts of their refusals.
pub mod Accepting
use chokobot.Clock.{Codes, Digits, lex_le, parse_hora, strip_codes}
use chokobot.Schedule.Dates.{Date, weekday}
use chokobot.Schedule.ServiceDate.{
  parse_service_date, format_service_date, format_service_date_with_weekday,
}
use chokobot.Schedule.Calendar.{
  Entry, Calendar, Window, Mode, all_modes, retirada, entrega, is_yes, special_hours,
  blocked_service_date_entry, operational_day_override, store_window_for_date,
}
use chokobot.Schedule.Capacity.{OrderRow, Violation, capacity_violation, coalesce}
use chokobot.Common.{
  ℕ, zero, suc, ◌+◌, ◌-◌, Bool, true, false, not, ◌&&◌, ◌||◌, Option, none, some, List, [], ◌∷◌,
  ◌++◌, map, codes, ◌==◌, is_some, if◌then◌else◌, get_elem?, String,
}

-- what a request is looked at with: the store's hours, its calendar and its orders
pub record Schedule : Type 0 where
  pub windows : List (Option Window)
  pub calendar : Calendar
  pub rows : List OrderRow
  pub normalize_text : Codes → Codes
  pub store_hours_summary : Codes
  pub sunday_unavailable_message : Codes

-- `str(a or b or c).strip()`
unfoldable pub reason_or : Codes → Codes → Codes → Codes
unfolding strip_codes
reason_or [] [] c = strip_codes c
reason_or [] (x ∷ xs) c = strip_codes (x ∷ xs)
reason_or (x ∷ xs) b c = strip_codes (x ∷ xs)

-- a date has a day of the week
unfoldable pub scope_of : Date → Codes
unfolding format_service_date_with_weekday
scope_of t = coalesce (format_service_date_with_weekday t) []

unfoldable pub slot_text : Option Codes → Option Codes → Codes
slot_text none none = []
slot_text (some a) none = codes ", a partir de " ++ a
slot_text none (some b) = codes ", ate " ++ b
slot_text (some a) (some b) = codes ", das " ++ a ++ codes " as " ++ b

unfoldable pub mode_suffix : Mode → Codes
mode_suffix all_modes = []
mode_suffix retirada = codes " para retirada"
mode_suffix entrega = codes " para entrega"

unfoldable pub format_capacity_message : Date → Violation → Codes
unfolding reason_or scope_of slot_text mode_suffix
format_capacity_message t v =
    codes "Nao temos mais vaga para "
    ++ scope_of t
    ++ slot_text v.time_from v.time_to
    ++ mode_suffix v.mode
    ++ codes " por "
    ++ reason_or v.entry.label v.entry.reason (codes "capacidade operacional")
    ++ codes ". Me passe outro horario ou outra data para eu seguir certinho."

-- `_format_blocked_date_message` and `_format_closed_override_message`, by what they say without a reason
unfoldable pub not_serving : Codes → Codes → Date → Entry → Codes
unfolding reason_or scope_of
not_serving unnamed summary t entry =
    codes "Nao estamos atendendo em "
    ++ scope_of t
    ++ codes " por "
    ++ reason_or entry.reason entry.label unnamed
    ++ codes ". Horario de funcionamento: "
    ++ summary

unfoldable pub format_blocked_date_message : Codes → Date → Entry → Codes
unfolding not_serving
format_blocked_date_message = not_serving (codes "indisponibilidade operacional")

unfoldable pub format_closed_override_message : Codes → Date → Entry → Codes
unfolding not_serving
format_closed_override_message = not_serving (codes "fechamento operacional")

-- `_DAY_LABELS`
abbrev day_labels : List String
day_labels =
    "segunda-feira" ∷ "terca-feira" ∷ "quarta-feira" ∷ "quinta-feira" ∷ "sexta-feira" ∷ "sabado"
    ∷ "domingo" ∷ []

unfoldable pub day_label : ℕ → Codes
unfolding get_elem?
day_label d = elim (get_elem? day_labels d) [ none ↦ [] | some label ↦ codes label ]

-- `hour.replace(":00", "h")`, on a text HH:MM
unfoldable pub hour_text : Codes → Codes
hour_text (a ∷ b ∷ c ∷ d ∷ e ∷ []) =
    if c == 58 && (d == 48 && e == 48) then a ∷ b ∷ b'h' ∷ [] else a ∷ b ∷ c ∷ d ∷ e ∷ []
hour_text t = t

unfoldable pub outside_hours_message : Codes → Date → Window → Codes
unfolding day_label hour_text weekday
outside_hours_message summary t (opening, closing) =
    codes "Para "
    ++ day_label (weekday t)
    ++ codes ", atendemos das "
    ++ hour_text opening
    ++ codes " as "
    ++ hour_text closing
    ++ codes ". Horario de funcionamento: "
    ++ summary

-- the override that closes a day
unfoldable pub closing_override : Option Entry → Option Entry
unfolding is_yes
closing_override none = none
closing_override (some override) = if is_yes override.closed then some override else none

module _ (digits : Digits) (s : Schedule) where
  -- Sunday needs an override with hours.
  unfoldable pub opens_sunday : Option Entry → Bool
  unfolding special_hours
  opens_sunday none = false
  opens_sunday (some override) = is_some (special_hours digits override)

  unfoldable pub capacity_error : Date → Codes → Option Codes
  unfolding capacity_violation format_capacity_message
  capacity_error t horario =
      elim (capacity_violation digits s.normalize_text s.rows s.calendar t horario []) [
        | none ↦ none
        | some v ↦ some (format_capacity_message t v)
      ]

  -- `validate_service_date` of a date that was read
  unfoldable pub date_error : Date → Option Codes
  unfolding blocked_service_date_entry operational_day_override closing_override opens_sunday
      capacity_error format_blocked_date_message format_closed_override_message
  date_error t = elim (blocked_service_date_entry digits s.calendar t) [
    | some entry ↦ some (format_blocked_date_message s.store_hours_summary t entry)
    | none ↦ elim (closing_override (operational_day_override digits s.calendar t)) [
      | some override ↦ some (format_closed_override_message s.store_hours_summary t override)
      | none ↦
          if weekday t == 6 && not (opens_sunday (operational_day_override digits s.calendar t))
          then some s.sunday_unavailable_message
          else capacity_error t []
    ]
  ]

  unfoldable pub validate_service_date : Codes → Option Codes
  unfolding parse_service_date date_error
  validate_service_date value = elim (parse_service_date digits value) [
    | none ↦ none
    | some t ↦ date_error t
  ]

  -- the end of `validate_service_schedule`, for a date that is served and a time that was read
  unfoldable pub hour_error : Date → Codes → Option Codes
  unfolding store_window_for_date operational_day_override closing_override capacity_error
      validate_service_date format_closed_override_message outside_hours_message lex_le
      format_service_date
  hour_error t parsed_time = elim (store_window_for_date digits s.windows s.calendar t) [
    | none ↦ elim (closing_override (operational_day_override digits s.calendar t)) [
      | some override ↦ some (format_closed_override_message s.store_hours_summary t override)
      | none ↦ validate_service_date (format_service_date t)
    ]
    | some window ↦
        if lex_le window.0 parsed_time && lex_le parsed_time window.1
        then capacity_error t parsed_time
        else some (outside_hours_message s.store_hours_summary t window)
  ]

  -- an error that was met, or the rest
  unfoldable pub error_or : Option Codes → Option Codes → Option Codes
  error_or none rest = rest
  error_or (some e) rest = some e

  unfoldable pub schedule_error : Option Date → Option Codes → Option Codes
  unfolding hour_error
  schedule_error (some t) (some parsed_time) = hour_error t parsed_time
  schedule_error _ _ = none

  unfoldable pub validate_service_schedule : Codes → Codes → Option Codes
  unfolding validate_service_date schedule_error error_or parse_service_date parse_hora
  validate_service_schedule value horario =
      error_or (validate_service_date value)
        (schedule_error (parse_service_date digits value) (parse_hora digits horario))
