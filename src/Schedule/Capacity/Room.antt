-- ===== src/Schedule/Capacity/Room.antt =====
-- When a day or a slot still has room: every entry of the calendar that is about it and that has a
-- limit counts fewer orders than the limit.
use chokobot.Clock.{Codes, Digits, parse_hora}
use chokobot.Schedule.Dates.{Date}
use chokobot.Schedule.Calendar.{
  ℤ, pos, negsuc, Entry, Calendar, Mode, all_modes, is_of_date, same_codes,
}
use chokobot.Schedule.Capacity.{
  OrderRow, Violation, count_scheduled_orders_for_capacity, in_slot, mode_concerns,
  normalize_capacity_mode, violation_at, entry_violation, violation_or, first_violation,
  capacity_violation,
}
use chokobot.Common.{
  ℕ, ◌<◌, ◌≡◌, refl, Bool, true, Option, none, some, List, [], ◌∷◌, ◌↔◌, arith, Bool-cases, inl,
  inr,
}

module _ (digits : Digits) (normalize_text : Codes → Codes) (rows : List OrderRow) (t : Date) where
  -- the orders that an entry counts
  abbrev pub scheduled : Entry → ℕ
  scheduled entry =
      count_scheduled_orders_for_capacity rows t (parse_hora digits entry.time_from)
        (parse_hora digits entry.time_to)
        (normalize_capacity_mode digits normalize_text rows entry.mode)

  abbrev pub covers : Option Codes → Entry → Bool
  covers time entry =
      in_slot time (parse_hora digits entry.time_from) (parse_hora digits entry.time_to)

  -- an entry that is about the date and the time, if there is one, and has a limit, is not full
  pub record LeavesRoom (time : Option Codes) (entry : Entry) : Type 0 where
    pub below :
        (limit : ℕ)
        → is_of_date digits t entry ≡ true
        → covers time entry ≡ true
        → entry.max_orders ≡ some (pos limit)
        → scheduled entry < limit

  -- every entry of a list leaves room
  unfoldable pub HasRoom : Option Codes → List (Option Entry) → Type 0
  HasRoom time [] = Unit
  HasRoom time (none ∷ entries) = HasRoom time entries
  HasRoom time (some entry ∷ entries) = LeavesRoom time entry × HasRoom time entries

  violation_at-none :
      (entry : Entry) (a b : Option Codes) (m : Mode) (o : Option ℤ) (limit : ℕ)
      → o ≡ some (pos limit)
      → violation_at digits normalize_text rows t entry a b m o ≡ none
      → count_scheduled_orders_for_capacity rows t a b m < limit
  unfolding violation_at
  violation_at-none entry a b m o limit e h = let full = rw e at h in ground arith

  violation_at_has_room :
      (entry : Entry) (a b : Option Codes) (m : Mode) (o : Option ℤ)
      → ((limit : ℕ)
          → o ≡ some (pos limit)
          → count_scheduled_orders_for_capacity rows t a b m < limit)
      → violation_at digits normalize_text rows t entry a b m o ≡ none
  unfolding violation_at
  violation_at_has_room entry a b m none h = refl
  violation_at_has_room entry a b m (some (negsuc n)) h = refl
  violation_at_has_room entry a b m (some (pos limit)) h = let below = h limit refl in ground arith

  entry_violation-LeavesRoom :
      (time : Option Codes) (entry : Entry)
      → is_of_date digits t entry ≡ true
      → entry_violation digits normalize_text rows t time all_modes entry ≡ none
      → LeavesRoom time entry
  unfolding entry_violation mode_concerns
  entry_violation-LeavesRoom time entry d h = record {
    below = λ limit d' c e. violation_at-none entry _ _ _ entry.max_orders limit e (rw c at h);
  }

  LeavesRoom-entry_violation :
      (time : Option Codes) (entry : Entry)
      → is_of_date digits t entry ≡ true
      → LeavesRoom time entry
      → entry_violation digits normalize_text rows t time all_modes entry ≡ none
  unfolding entry_violation mode_concerns
  LeavesRoom-entry_violation time entry d room = elim (Bool-cases (covers time entry)) [
    | inl c ↦
        rw c (violation_at_has_room entry _ _ _ entry.max_orders λ limit e. room.below limit d c e)
    | inr c ↦ rw c refl
  ]

  violation_or-none :
      (v w : Option Violation)
      → violation_or digits normalize_text rows v w ≡ none
      → (v ≡ none) × (w ≡ none)
  unfolding violation_or
  violation_or-none none w h = (refl, h)
  violation_or-none (some v) w h = absurd cc

  first_violation-HasRoom :
      (time : Option Codes) (entries : List (Option Entry))
      → first_violation digits normalize_text rows t time all_modes entries ≡ none
      → HasRoom time entries
  unfolding first_violation HasRoom
  first_violation-HasRoom time [] h = tt
  first_violation-HasRoom time (none ∷ entries) h = first_violation-HasRoom time entries h
  first_violation-HasRoom time (some entry ∷ entries) h =
      elim (Bool-cases (is_of_date digits t entry)) [
        | inl d ↦
            let (here, rest) = violation_or-none _ _ (rw d at h) in
            (
              entry_violation-LeavesRoom time entry d here,
              first_violation-HasRoom time entries rest,
            )
        | inr d ↦ (
          record { below = λ limit d' c e. absurd cc },
          first_violation-HasRoom time entries (rw d at h),
        )
      ]

  HasRoom-first_violation :
      (time : Option Codes) (entries : List (Option Entry))
      → HasRoom time entries
      → first_violation digits normalize_text rows t time all_modes entries ≡ none
  unfolding first_violation HasRoom violation_or
  HasRoom-first_violation time [] h = refl
  HasRoom-first_violation time (none ∷ entries) h = HasRoom-first_violation time entries h
  HasRoom-first_violation time (some entry ∷ entries) (here, rest) =
      elim (Bool-cases (is_of_date digits t entry)) [
        | inl d ↦
            rw (d, LeavesRoom-entry_violation time entry d here)
              (HasRoom-first_violation time entries rest)
        | inr d ↦ rw d (HasRoom-first_violation time entries rest)
      ]

  -- The capacity of a date, and of a time if one is read, has no violation exactly when every entry of
  -- the calendar for the date, of whichever mode, that has a limit and covers the time counts fewer
  -- orders than its limit; a date without a time is covered by the entries without hours.
  pub capacity_violation-HasRoom :
      (calendar : Calendar) (horario : Codes)
      → normalize_text [] ≡ []
      → (capacity_violation digits normalize_text rows calendar t horario [] ≡ none)
        ↔ HasRoom (parse_hora digits horario) calendar.slot_capacities
  unfolding capacity_violation normalize_capacity_mode same_codes
  capacity_violation-HasRoom calendar horario e =
      let m : normalize_capacity_mode digits normalize_text rows [] ≡ all_modes = rw e refl in
      rw m (
        first_violation-HasRoom (parse_hora digits horario) calendar.slot_capacities,
        HasRoom-first_violation (parse_hora digits horario) calendar.slot_capacities,
      )
