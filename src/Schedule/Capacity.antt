-- ===== src/Schedule/Capacity.antt =====
-- The capacity of a day or of a slot of it: `_count_scheduled_orders_for_capacity` and
-- `_capacity_violation` of app/services/store_schedule.py.
pub mod Room
use chokobot.Clock.{Codes, Digits, lex_le, parse_hora}
use chokobot.Schedule.Dates.{Date}
use chokobot.Schedule.ServiceDate.{isoformat_date}
use chokobot.Schedule.Calendar.{
  ℤ, pos, negsuc, Entry, Calendar, Mode, all_modes, retirada, entrega, same_mode, same_codes,
  member_codes, is_of_date,
}
use chokobot.Common.{
  ℕ, zero, suc, ◌+◌, Bool, true, false, not, ◌&&◌, ◌||◌, Option, none, some, List, [], ◌∷◌, ◌++◌,
  map, codes, length, leb, is_some, if◌then◌else◌,
}

-- A row of `encomendas LEFT JOIN entregas`, as far as the query reads it: `none` for NULL, also for the
-- type of an order that has no delivery.
pub record OrderRow : Type 0 where
  pub data_entrega : Codes
  pub horario : Option Codes
  pub tipo : Option Codes

abbrev pub coalesce : Option Codes → Codes → Codes
coalesce none other = other
coalesce (some t) other = t

-- the text of a mode in the table
unfoldable pub mode_text : Mode → Codes
mode_text entrega = codes "entrega"
mode_text _ = codes "retirada"

-- "AND COALESCE(e.horario, '') >= ?", or nothing
unfoldable pub starts : Option Codes → OrderRow → Bool
unfolding lex_le
starts none row = true
starts (some time_from) row = lex_le time_from (coalesce row.horario [])

unfoldable pub ends : Option Codes → OrderRow → Bool
unfolding lex_le
ends none row = true
ends (some time_to) row = lex_le (coalesce row.horario []) time_to

unfoldable pub of_mode : Mode → OrderRow → Bool
unfolding mode_text same_codes
of_mode all_modes row = true
of_mode mode row = same_codes (coalesce row.tipo (codes "retirada")) (mode_text mode)

-- the WHERE clause
unfoldable pub is_counted : Date → Option Codes → Option Codes → Mode → OrderRow → Bool
unfolding isoformat_date same_codes of_mode starts ends
is_counted t time_from time_to mode row =
    same_codes row.data_entrega (isoformat_date t)
    && (of_mode mode row && (starts time_from row && ends time_to row))

-- `_count_scheduled_orders_for_capacity`
pub count_scheduled_orders_for_capacity :
    List OrderRow → Date → Option Codes → Option Codes → Mode → ℕ
unfolding is_counted
count_scheduled_orders_for_capacity [] t time_from time_to mode = 0
count_scheduled_orders_for_capacity (row ∷ rows) t time_from time_to mode =
    let rest = count_scheduled_orders_for_capacity rows t time_from time_to mode in
    if is_counted t time_from time_to mode row then suc rest else rest

-- `a < b` for texts
unfoldable pub lex_lt : Codes → Codes → Bool
unfolding lex_le
lex_lt a b = not (lex_le b a)

-- whether a time that is asked for, if it is, lies in a slot
unfoldable pub in_slot : Option Codes → Option Codes → Option Codes → Bool
unfolding lex_lt
in_slot none none none = true
in_slot none _ _ = false
in_slot (some t) none none = true
in_slot (some t) (some time_from) none = not (lex_lt t time_from)
in_slot (some t) none (some time_to) = not (lex_lt time_to t)
in_slot (some t) (some time_from) (some time_to) =
    not (lex_lt t time_from) && not (lex_lt time_to t)

-- whether the entry's mode is one that is asked for
unfoldable pub mode_concerns : Mode → Mode → Bool
unfolding same_mode
mode_concerns all_modes entry_mode = true
mode_concerns requested entry_mode =
    same_mode entry_mode all_modes || same_mode entry_mode requested

pub record Violation : Type 0 where
  pub entry : Entry
  pub scheduled_total : ℕ
  pub max_orders : ℕ
  pub time_from : Option Codes
  pub time_to : Option Codes
  pub mode : Mode

-- a day's schedule: the rows of the orders, and the texts' normal form, `_normalize_text`
module _ (digits : Digits) (normalize_text : Codes → Codes) (rows : List OrderRow) where
  unfoldable pub normalize_capacity_mode : Codes → Mode
  unfolding same_codes
  normalize_capacity_mode value =
      let normalized = normalize_text value in
      if same_codes normalized (codes "retirada")
      then retirada
      else if same_codes normalized (codes "entrega")
      then entrega
      else all_modes

  -- the full entry, if the orders come up to its limit
  unfoldable pub violation_at :
      Date → Entry → Option Codes → Option Codes → Mode → Option ℤ → Option Violation
  unfolding count_scheduled_orders_for_capacity
  violation_at t entry time_from time_to mode none = none
  violation_at t entry time_from time_to mode (some (negsuc n)) = none
  violation_at t entry time_from time_to mode (some (pos limit)) =
      let scheduled = count_scheduled_orders_for_capacity rows t time_from time_to mode in
      if leb limit scheduled
      then some (record {
        entry = entry;
        scheduled_total = scheduled;
        max_orders = limit;
        time_from = time_from;
        time_to = time_to;
        mode = mode;
      })
      else none

  -- one turn of the loop of `_capacity_violation`, for an entry of the date
  unfoldable pub entry_violation : Date → Option Codes → Mode → Entry → Option Violation
  unfolding parse_hora normalize_capacity_mode mode_concerns in_slot violation_at
  entry_violation t parsed_time requested entry =
      let time_from = parse_hora digits entry.time_from in
      let time_to = parse_hora digits entry.time_to in
      let entry_mode = normalize_capacity_mode entry.mode in
      if mode_concerns requested entry_mode && in_slot parsed_time time_from time_to
      then violation_at t entry time_from time_to entry_mode entry.max_orders
      else none

  unfoldable pub violation_or : Option Violation → Option Violation → Option Violation
  violation_or none other = other
  violation_or (some v) other = some v

  -- `_capacity_violation` over the entries of `slot_capacities`
  pub first_violation : Date → Option Codes → Mode → List (Option Entry) → Option Violation
  unfolding is_of_date entry_violation violation_or
  first_violation t parsed_time requested [] = none
  first_violation t parsed_time requested (none ∷ entries) =
      first_violation t parsed_time requested entries
  first_violation t parsed_time requested (some entry ∷ entries) =
      let rest = first_violation t parsed_time requested entries in
      if is_of_date digits t entry
      then violation_or (entry_violation t parsed_time requested entry) rest
      else rest

  -- The callers give no mode, which asks for all of them.
  unfoldable pub capacity_violation : Calendar → Date → Codes → Codes → Option Violation
  unfolding first_violation normalize_capacity_mode parse_hora
  capacity_violation calendar t horario mode =
      first_violation t (parse_hora digits horario) (normalize_capacity_mode mode)
        calendar.slot_capacities
