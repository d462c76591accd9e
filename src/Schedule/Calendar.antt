-- ===== src/Schedule/Calendar.antt =====
-- The operational calendar and the store's opening hours: `_build_store_windows` of
-- app/services/commercial_rules.py, and the entries, modes and windows of
-- app/services/store_schedule.py. An entry of the calendar is a JSON object, whose hours `open` and
-- `close` are `opening` and `closing` here; a field that is missing
-- or false there is the empty text here, as `str(entry.get(key) or "")` makes it, and
-- a missing mode is the word `all`.
use chokobot.Clock.{Codes, Digits, strip_codes, strptime, parse_hora}
use chokobot.Schedule.Dates.{Date, weekday}
use chokobot.Schedule.ServiceDate.{parse_service_date}
use chokobot.Common.{
  ℕ, ◌+◌, Bool, true, false, ◌&&◌, ◌||◌, Option, none, some, List, [], ◌∷◌, map, codes, leb, ◌==◌,
  is_some, if◌then◌else◌, get_elem?,
}

-- Python's `int`
pub data ℤ : Type 0 where
  pos : ℕ → ℤ
  negsuc : ℕ → ℤ

pub record Entry : Type 0 where
  pub date : Codes
  pub closed : Codes
  pub opening : Codes
  pub closing : Codes
  pub time_from : Codes
  pub time_to : Codes
  pub mode : Codes
  -- `int(max_orders)`, or nothing for its `TypeError` and `ValueError`
  pub max_orders : Option ℤ
  pub label : Codes
  pub reason : Codes

-- opening and closing hours
abbrev pub Window : Type 0
Window = Codes × Codes

-- The lists of the calendar. An item that is no JSON object is `none`.
pub record Calendar : Type 0 where
  pub weekly_windows : Option (List (Option Entry))
  pub blocked_dates : List (Option Entry)
  pub date_overrides : List (Option Entry)
  pub slot_capacities : List (Option Entry)

unfoldable pub same_codes : Codes → Codes → Bool
same_codes [] [] = true
same_codes (a ∷ as') (b ∷ bs) = let rest = same_codes as' bs in a == b && rest
same_codes _ _ = false

unfoldable pub member_codes : Codes → List Codes → Bool
unfolding same_codes
member_codes t [] = false
member_codes t (x ∷ xs) = same_codes t x || member_codes t xs

unfoldable pub same_date : Date → Date → Bool
same_date a b = a.year == b.year && (a.month == b.month && a.day == b.day)

-- `str.lower` on the letters of ASCII
abbrev pub lower_ascii : ℕ → ℕ
lower_ascii c = if leb 65 c && leb c 90 then c + 32 else c

-- `text.lower() in {"1", "true", "sim", "yes"}`
unfoldable pub is_yes : Codes → Bool
unfolding member_codes
is_yes t =
    member_codes (map lower_ascii t) (codes "1" ∷ codes "true" ∷ codes "sim" ∷ codes "yes" ∷ [])

-- `opening and closing` of an entry's two hours
unfoldable pub both_hours : Option Codes → Option Codes → Option Window
both_hours (some opening) (some closing) = some (opening, closing)
both_hours _ _ = none

pub data Mode : Type 0 where
  all_modes : Mode
  retirada : Mode
  entrega : Mode

unfoldable pub same_mode : Mode → Mode → Bool
same_mode all_modes all_modes = true
same_mode retirada retirada = true
same_mode entrega entrega = true
same_mode _ _ = false

-- `_DEFAULT_STORE_WINDOWS`
unfoldable pub default_store_windows : List (Option Window)
default_store_windows =
    some (codes "12:00", codes "18:00")
    ∷ some (codes "09:00", codes "18:00")
    ∷ some (codes "09:00", codes "18:00")
    ∷ some (codes "09:00", codes "18:00")
    ∷ some (codes "09:00", codes "18:00")
    ∷ some (codes "09:00", codes "18:00")
    ∷ none
    ∷ []

-- a dictionary of days is empty
pub no_window : List (Option Window) → Bool
no_window [] = true
no_window (w ∷ ws) = let rest = no_window ws in if is_some w then false else rest

module _ (digits : Digits) where
  -- `_normalize_clock`
  unfoldable pub normalize_clock : Codes → Option Codes
  unfolding strptime strip_codes
  normalize_clock value = strptime digits (strip_codes value)

  -- one turn of the loop of `_build_store_windows`
  unfoldable pub weekly_window : Option Entry → Option Window
  unfolding is_yes both_hours normalize_clock
  weekly_window none = none
  weekly_window (some entry) =
      if is_yes (strip_codes entry.closed)
      then none
      else both_hours (normalize_clock entry.opening) (normalize_clock entry.closing)

  -- `_build_store_windows`: the windows of the seven days
  unfoldable pub build_store_windows : Calendar → List (Option Window)
  unfolding weekly_window default_store_windows no_window
  build_store_windows calendar = elim calendar.weekly_windows [
    | none ↦ default_store_windows
    | some weekly ↦
        let resolved = map weekly_window weekly in
        if no_window resolved then default_store_windows else resolved
  ]

  unfoldable pub calendar_date : Entry → Option Date
  unfolding parse_service_date
  calendar_date entry = parse_service_date digits entry.date

  -- whether an entry is of a date
  unfoldable pub is_of_date : Date → Entry → Bool
  unfolding calendar_date same_date
  is_of_date target entry = elim (calendar_date entry) [
    | none ↦ false
    | some t ↦ same_date t target
  ]

  pub match_calendar_entry : List (Option Entry) → Date → Option Entry
  unfolding is_of_date
  match_calendar_entry [] target = none
  match_calendar_entry (none ∷ entries) target = match_calendar_entry entries target
  match_calendar_entry (some entry ∷ entries) target =
      let rest = match_calendar_entry entries target in
      if is_of_date target entry then some entry else rest

  unfoldable pub operational_day_override : Calendar → Date → Option Entry
  unfolding match_calendar_entry
  operational_day_override calendar = match_calendar_entry calendar.date_overrides

  unfoldable pub blocked_service_date_entry : Calendar → Date → Option Entry
  unfolding match_calendar_entry
  blocked_service_date_entry calendar = match_calendar_entry calendar.blocked_dates

  -- the hours of an override that opens
  unfoldable pub special_hours : Entry → Option Window
  unfolding both_hours parse_hora
  special_hours override =
      both_hours (parse_hora digits override.opening) (parse_hora digits override.closing)

  -- `STORE_WINDOWS.get(parsed.weekday())`
  unfoldable pub weekday_window : List (Option Window) → Date → Option Window
  unfolding get_elem? weekday
  weekday_window windows t = elim (get_elem? windows (weekday t)) [ none ↦ none | some w ↦ w ]

  unfoldable pub window_or : Option Window → Option Window → Option Window
  window_or none other = other
  window_or (some w) other = some w

  unfoldable pub store_window_for_date : List (Option Window) → Calendar → Date → Option Window
  unfolding operational_day_override is_yes special_hours weekday_window window_or
  store_window_for_date windows calendar t = elim (operational_day_override calendar t) [
    | none ↦ weekday_window windows t
    | some override ↦
        if is_yes override.closed
        then none
        else window_or (special_hours override) (weekday_window windows t)
  ]
