-- ===== src/Tests/Times.antt =====
-- Times, dates, the AI's week, and orders that the schedule takes.
use chokobot.Clock.{Codes, Digits, parse_hora, format_hora}
use chokobot.Clock.Parsing.{IsTime, parse_hora-IsTime}
use chokobot.Schedule.Week.{
  Moment, Settings, is_ai_within_schedule, minutes_until, is_ai_within_schedule_lem,
}
use chokobot.Schedule.Dates.{
  Date, is_date, is_leap, weekday, toordinal, resolve_day_of_month, next_or_same_weekday,
}
use chokobot.Schedule.Dates.Resolve.{IsFirst, resolve_day_of_month-IsFirst}
use chokobot.Schedule.Dates.Weekdays.{next_or_same_weekday_lem}
use chokobot.Schedule.ServiceDate.{format_service_date, parse_service_date, isoformat_date}
use chokobot.Schedule.ServiceDate.Reading.{parse_service_date-format_service_date}
use chokobot.Schedule.Calendar.{pos, Entry, Calendar, default_store_windows}
use chokobot.Schedule.Capacity.{OrderRow, capacity_violation}
use chokobot.Schedule.Capacity.Room.{HasRoom, capacity_violation-HasRoom}
use chokobot.Schedule.Validation.{Schedule, validate_service_schedule}
use chokobot.Schedule.Validation.Accepting.{
  ServesDate, KeepsHours, validate_service_schedule_accepts,
}
use chokobot.Common.{
  ℕ, ◌+◌, ◌-◌, ◌≤◌, ◌<◌, ◌≡◌, refl, true, false, not, ◌||◌, ◌&&◌, Option, none, some, List, [], ◌∷◌,
  ◌↔◌, codes, arith, leb, if◌then◌else◌,
}

abbrev pub decimal : ℕ → Option ℕ
decimal c = if leb 48 c && leb c 57 then some (c - 48) else none

-- the digits of ASCII alone
pub ascii : Digits
ascii = record {
  decimal = decimal;
  decimal_lt = λ c d h. ground arith;
  decimal_ascii = λ d h. ground arith;
  decimal_colon = refl;
}

parse_hora-IsTime_example : IsTime (format_hora 9 30)
unfolding parse_hora ascii format_hora
parse_hora-IsTime_example = parse_hora-IsTime ascii (codes " 9H30 ") (format_hora 9 30) refl

-- The defaults: from Friday at 19:00 to Monday at 06:00.
abbrev weekend : Settings
weekend = record {
  ai_auto_schedule_enabled = true;
  ai_auto_off = record { weekday = 4; hour = 19; minute = 0 };
  ai_auto_on = record { weekday = 0; hour = 6; minute = 0 };
}

abbrev sunday_noon : Moment
sunday_noon = record { weekday = 6; hour = 12; minute = 0 }

is_ai_within_schedule_lem_example :
    is_ai_within_schedule weekend sunday_noon
    ≡ some (
        not true
        || leb
            (minutes_until weekend.ai_auto_off weekend.ai_auto_on)
            (minutes_until weekend.ai_auto_off sunday_noon))
is_ai_within_schedule_lem_example =
    is_ai_within_schedule_lem weekend sunday_noon
      (record { weekday_lt = omega arith; hour_lt = omega arith; minute_lt = omega arith })
      (record { weekday_lt = omega arith; hour_lt = omega arith; minute_lt = omega arith })

sunday_noon_silent : is_ai_within_schedule weekend sunday_noon ≡ some false
unfolding is_ai_within_schedule
sunday_noon_silent = refl

abbrev end_of_january : Date
end_of_january = record { year = 2026; month = 1; day = 31 }

-- From 31 January 2026, the day 30 is next met on 30 March.
resolve_day_of_month-IsFirst_example :
    (found : Date) × (resolve_day_of_month 30 end_of_january ≡ some found)
    × IsFirst 30 end_of_january found
unfolding is_date
resolve_day_of_month-IsFirst_example =
    resolve_day_of_month-IsFirst 30 end_of_january refl (omega arith) (omega arith) (omega arith)

next_or_same_weekday_lem_example :
    (found : Date) × (next_or_same_weekday end_of_january 0 ≡ some found)
    × (is_date found ≡ true)
    × (weekday found ≡ 0)
    × (toordinal end_of_january ≤ toordinal found)
    × (toordinal found < toordinal end_of_january + 7)
    × ((other : Date)
        → weekday other ≡ 0
        → toordinal end_of_january ≤ toordinal other
        → toordinal found ≤ toordinal other)
unfolding is_date toordinal is_leap
next_or_same_weekday_lem_example =
    next_or_same_weekday_lem end_of_january 0 refl (omega arith) (omega arith)

parse_service_date-format_service_date_example :
    parse_service_date ascii (format_service_date end_of_january) ≡ some end_of_january
unfolding is_date
parse_service_date-format_service_date_example =
    parse_service_date-format_service_date ascii end_of_january refl

-- Saturday 28 March 2026, with one place left from 14:00 to 18:00
abbrev saturday : Date
saturday = record { year = 2026; month = 3; day = 28 }

abbrev afternoon : Entry
afternoon = record {
  date = codes "28/03/2026";
  closed = [];
  opening = [];
  closing = [];
  time_from = codes "14:00";
  time_to = codes "18:00";
  mode = codes "all";
  max_orders = some (pos 2);
  label = codes "tarde de sabado";
  reason = [];
}

abbrev calendar : Calendar
calendar = record {
  weekly_windows = none;
  blocked_dates = [];
  date_overrides = [];
  slot_capacities = some afternoon ∷ [];
}

abbrev orders : List OrderRow
orders =
    record { data_entrega = isoformat_date saturday; horario = some (codes "15:00"); tipo = none }
    ∷ []

abbrev schedule : List (Option (Codes × Codes)) → Schedule
schedule windows = record {
  windows = windows;
  calendar = calendar;
  rows = orders;
  normalize_text = λ t. t;
  store_hours_summary = [];
  sunday_unavailable_message = codes "domingo";
}

capacity_violation-HasRoom_example :
    (capacity_violation ascii (λ t. t) orders calendar saturday (codes "15h") [] ≡ none)
    ↔ HasRoom ascii
        (λ t. t)
        orders
        saturday
        (parse_hora ascii (codes "15h"))
        calendar.slot_capacities
capacity_violation-HasRoom_example =
    capacity_violation-HasRoom ascii (λ t. t) orders saturday calendar (codes "15h") refl

validate_service_schedule_accepts_example :
    (validate_service_schedule ascii
        (schedule default_store_windows)
        (codes "28/03/2026")
        (codes "15h")
      ≡ none)
    ↔ (ServesDate ascii (schedule default_store_windows) saturday
        × KeepsHours ascii (schedule default_store_windows) saturday (codes "15:00"))
unfolding parse_service_date parse_hora ascii format_hora
validate_service_schedule_accepts_example =
    validate_service_schedule_accepts ascii (schedule default_store_windows) refl
      (codes "28/03/2026") (codes "15h") saturday (codes "15:00") refl refl
