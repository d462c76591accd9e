-- ===== src/Schedule/Week.antt =====
-- The part of the week in which the AI answers: `_minute_of_week`, `ai_auto_schedule_state` and
-- `is_ai_within_schedule` of app/services/store_schedule.py. Days of the week count from Monday, 0.
use chokobot.Clock.{Codes, format_hora}
use chokobot.Common.{
  ℕ, ◌+◌, ◌-◌, ◌*◌, ◌%◌, ◌<◌, ◌≡◌, refl, Bool, false, not, ◌&&◌, ◌||◌, Option, none, some, List, [],
  ◌∷◌, ◌++◌, get_elem?, get_elem?-some, String, codes, arith, leb, ltb, ◌==◌, if◌then◌else◌,
}

-- `_DAY_TITLE_LABELS`, with the `KeyError` of a number that is no day
abbrev day_titles : List String
day_titles = "Segunda" ∷ "Terca" ∷ "Quarta" ∷ "Quinta" ∷ "Sexta" ∷ "Sabado" ∷ "Domingo" ∷ []

unfoldable pub day_title : ℕ → Option String
unfolding get_elem?
day_title d = get_elem? day_titles d

-- a day of the week and a time of it
pub record Moment : Type 0 where
  pub weekday : ℕ
  pub hour : ℕ
  pub minute : ℕ

pub record Settings : Type 0 where
  pub ai_auto_schedule_enabled : Bool
  pub ai_auto_off : Moment
  pub ai_auto_on : Moment

pub record AiState : Type 0 where
  pub enabled : Bool
  pub active : Bool
  pub inactive_window : Bool
  pub off_label : Codes
  pub on_label : Codes
  pub reason : Option String

unfoldable pub minute_of_week : Moment → ℕ
minute_of_week t = (t.weekday % 7) * 24 * 60 + (t.hour % 24) * 60 + (t.minute % 60)

-- whether the AI rests, by the minutes of the week
unfoldable pub is_inactive : ℕ → ℕ → ℕ → Bool
is_inactive off_m on_m now_m =
    if off_m == on_m
    then false
    else if ltb off_m on_m
    then leb off_m now_m && ltb now_m on_m
    else leb off_m now_m || ltb now_m on_m

-- f"{title} {hour:02d}:{minute:02d}"
unfoldable pub label : Moment → Option Codes
unfolding day_title
label t = elim (day_title t.weekday) [
  | none ↦ none
  | some title ↦ some (codes title ++ 32 ∷ format_hora t.hour t.minute)
]

-- the state of the two labels, or the `KeyError` of one of them
unfoldable pub state_of : Bool → Bool → Option Codes → Option Codes → Option AiState
state_of enabled inactive (some off_label) (some on_label) =
    let active = not enabled || not inactive in
    some (record {
      enabled = enabled;
      active = active;
      inactive_window = if enabled then not active else false;
      off_label = off_label;
      on_label = on_label;
      reason = if enabled && inactive then some "ai_schedule_off" else none;
    })
state_of _ _ _ _ = none

unfoldable pub ai_auto_schedule_state : Settings → Moment → Option AiState
unfolding minute_of_week is_inactive label state_of
ai_auto_schedule_state s now =
    state_of s.ai_auto_schedule_enabled
      (is_inactive (minute_of_week s.ai_auto_off) (minute_of_week s.ai_auto_on)
        (minute_of_week now))
      (label s.ai_auto_off) (label s.ai_auto_on)

unfoldable pub is_ai_within_schedule : Settings → Moment → Option Bool
unfolding ai_auto_schedule_state
is_ai_within_schedule s now = elim (ai_auto_schedule_state s now) [
  | none ↦ none
  | some st ↦ some st.active
]

-- a moment of the week, as the settings are clamped and as a clock shows it
pub record IsMoment (t : Moment) : Type 0 where
  pub weekday_lt : t.weekday < 7
  pub hour_lt : t.hour < 24
  pub minute_lt : t.minute < 60

-- the minutes from one moment to the next occurrence of another
unfoldable pub minutes_until : Moment → Moment → ℕ
unfolding minute_of_week
minutes_until from to = (minute_of_week to + 10080 - minute_of_week from) % 10080

minute_of_week_lt : (t : Moment) → minute_of_week t < 10080
unfolding minute_of_week
minute_of_week_lt t = omega arith

-- the three cases are one, counted from the moment at which the AI stops
is_inactive_cyclic :
    (off_m on_m now_m : ℕ)
    → off_m < 10080
    → on_m < 10080
    → now_m < 10080
    → is_inactive off_m on_m now_m
      ≡ ltb ((now_m + 10080 - off_m) % 10080) ((on_m + 10080 - off_m) % 10080)
unfolding is_inactive
is_inactive_cyclic off_m on_m now_m p q r = ground arith

day_title-some : (d : ℕ) → d < 7 → (title : String) × (day_title d ≡ some title)
unfolding day_title
day_title-some d p = get_elem?-some day_titles d p

label_some : (t : Moment) → IsMoment t → (txt : Codes) × (label t ≡ some txt)
unfolding label format_hora
label_some t i =
    let (title, e) = day_title-some t.weekday i.weekday_lt in
    (codes title ++ 32 ∷ format_hora t.hour t.minute, rw e refl)

-- With settings that are moments of a week, the AI answers exactly when its schedule is off or when
-- the week, counted from the moment at which it stops, has already come to the moment at which it
-- starts again; with equal moments it always answers.
pub is_ai_within_schedule_lem :
    (s : Settings) (now : Moment)
    → IsMoment s.ai_auto_off
    → IsMoment s.ai_auto_on
    → is_ai_within_schedule s now
      ≡ some (
          not s.ai_auto_schedule_enabled
          || leb (minutes_until s.ai_auto_off s.ai_auto_on) (minutes_until s.ai_auto_off now))
unfolding is_ai_within_schedule ai_auto_schedule_state state_of minutes_until
is_ai_within_schedule_lem s now p q =
    let (a, ea) = label_some s.ai_auto_off p in
    let (b, eb) = label_some s.ai_auto_on q in
    rw
      (
        ea,
        eb,
        is_inactive_cyclic _ _ _ (minute_of_week_lt s.ai_auto_off) (minute_of_week_lt s.ai_auto_on)
            (minute_of_week_lt now),
      )
      (ground arith)
