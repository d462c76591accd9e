-- ===== src/Clock/Parsing.antt =====
-- Which texts are times, and that a time is read back as itself.
use chokobot.Clock.{
  Codes, Digits, format_hora, clock, or_else, lower_code, strip_codes, hour_only, hour_h_minute,
  hour_minute, strptime, strptime_long, strptime_minute, strptime_hour, parse_hora,
  horario_entrega_permitido, lex_le,
}
use chokobot.Clock.Order.{lex_le-format_hora}
use mathlib.Core.Path.{subst}
use chokobot.Common.{
  ℕ, ◌+◌, ◌*◌, ◌%◌, ◌<◌, ◌≡◌, refl, sym, Bool, true, false, ◌&&◌, Option, none, some, [], ◌∷◌, map,
  arith, leb, ◌==◌, Bool-cases, ◌-◌, if◌then◌else◌, Option-cases, inl, inr,
}

-- a time of a day, as a text
pub record IsTime (r : Codes) : Type 0 where
  pub hour : ℕ
  pub minute : ℕ
  pub hour_lt : hour < 24
  pub minute_lt : minute < 60
  pub written : r ≡ format_hora hour minute

-- what a text is read as, if it is read
ReadsTime : Option Codes → Type 0
ReadsTime none = Unit
ReadsTime (some r) = IsTime r

-- the same of a value that a test may hide
when : (b : Bool) (o : Option Codes) → ReadsTime o → ReadsTime (if b then o else none)
unfolding ReadsTime
when true o h = h
when false o h = tt

clock-ReadsTime : (h m : Option ℕ) → ReadsTime (clock h m)
unfolding clock ReadsTime
clock-ReadsTime none m = tt
clock-ReadsTime (some h) none = tt
clock-ReadsTime (some h) (some m) = elim (Bool-cases (leb h 23 && leb m 59)) [
  | inl inside ↦ rw inside (record {
    hour = h;
    minute = m;
    hour_lt = ground arith;
    minute_lt = ground arith;
    written = refl;
  })
  | inr outside ↦ rw outside tt
]

or_else-ReadsTime : (a b : Option Codes) → ReadsTime a → ReadsTime b → ReadsTime (or_else a b)
unfolding or_else ReadsTime
or_else-ReadsTime none b p q = q
or_else-ReadsTime (some r) b p q = p

strip_codes-format_hora :
    (h m : ℕ) → h < 100 → m < 100 → map lower_code (strip_codes (format_hora h m)) ≡ format_hora h m
unfolding strip_codes format_hora
strip_codes-format_hora h m p q = ground arith

module _ (digits : Digits) where
  hour_h_minute-ReadsTime : (t : Codes) → ReadsTime (hour_h_minute digits t)
  unfolding hour_h_minute ReadsTime
  hour_h_minute-ReadsTime [] = tt
  hour_h_minute-ReadsTime (a ∷ []) = tt
  hour_h_minute-ReadsTime (a ∷ b ∷ []) = tt
  hour_h_minute-ReadsTime (a ∷ b ∷ c ∷ []) = tt
  hour_h_minute-ReadsTime (a ∷ h ∷ m ∷ n ∷ []) = when (h == b'h') _ (clock-ReadsTime _ _)
  hour_h_minute-ReadsTime (a ∷ b ∷ h ∷ m ∷ n ∷ []) = when (h == b'h') _ (clock-ReadsTime _ _)
  hour_h_minute-ReadsTime (a ∷ b ∷ h ∷ m ∷ n ∷ c ∷ t) = tt

  hour_minute-ReadsTime : (t : Codes) → ReadsTime (hour_minute digits t)
  unfolding hour_minute ReadsTime
  hour_minute-ReadsTime [] = tt
  hour_minute-ReadsTime (a ∷ []) = tt
  hour_minute-ReadsTime (a ∷ b ∷ []) = tt
  hour_minute-ReadsTime (a ∷ m ∷ n ∷ []) = clock-ReadsTime _ _
  hour_minute-ReadsTime (a ∷ b ∷ m ∷ n ∷ []) = clock-ReadsTime _ _
  hour_minute-ReadsTime (a ∷ b ∷ m ∷ n ∷ c ∷ t) = tt

  strptime_long-ReadsTime : (a b : ℕ) (t : Codes) → ReadsTime (strptime_long digits a b t)
  unfolding strptime_long ReadsTime
  strptime_long-ReadsTime a b [] = tt
  strptime_long-ReadsTime a b (c ∷ t) = when (c == 58) _ (clock-ReadsTime _ _)

  strptime-ReadsTime : (t : Codes) → ReadsTime (strptime digits t)
  unfolding strptime ReadsTime
  strptime-ReadsTime [] = tt
  strptime-ReadsTime (a ∷ []) = tt
  strptime-ReadsTime (a ∷ b ∷ t) = elim (Bool-cases (b == 58)) [
    | inl colon ↦ rw colon (clock-ReadsTime _ _)
    | inr long ↦ rw long (strptime_long-ReadsTime a b t)
  ]

  parse_hora-ReadsTime : (txt : Codes) → ReadsTime (parse_hora digits txt)
  unfolding parse_hora
  parse_hora-ReadsTime txt =
      let t = map lower_code (strip_codes txt) in
      or_else-ReadsTime _ _ (clock-ReadsTime (hour_only digits t) (some 0)) (
        or_else-ReadsTime _ _ (hour_h_minute-ReadsTime t)
          (or_else-ReadsTime _ _ (hour_minute-ReadsTime t) (strptime-ReadsTime t)))

  -- Whatever text is read as a time is written HH:MM, with an hour below 24 and a minute below 60.
  pub parse_hora-IsTime : (txt r : Codes) → parse_hora digits txt ≡ some r → IsTime r
  unfolding ReadsTime
  parse_hora-IsTime txt r h = subst ReadsTime h (parse_hora-ReadsTime txt)

  -- A time that is written HH:MM is read as itself.
  parse_hora-format_hora :
      (h m : ℕ) → h < 24 → m < 60 → parse_hora digits (format_hora h m) ≡ some (format_hora h m)
  unfolding parse_hora format_hora strptime_long strptime_hour strptime_minute
  parse_hora-format_hora h m p q =
      rw (strip_codes-format_hora h m (omega arith) (omega arith))
        (ground (arith, digits.decimal_ascii (h % 10), digits.decimal_ascii (m % 10)))

  -- the minutes since midnight of a text HH:MM
  abbrev pub minutes_of : Codes → ℕ
  minutes_of (a ∷ b ∷ c ∷ d ∷ e ∷ []) = ((a - 48) * 10 + (b - 48)) * 60 + ((d - 48) * 10 + (e - 48))
  minutes_of _ = 0

  minutes_of-format_hora : (h m : ℕ) → h < 24 → m < 60 → minutes_of (format_hora h m) ≡ h * 60 + m
  unfolding format_hora
  minutes_of-format_hora h m p q = omega arith

  lex_le-IsTime :
      (r : Codes) → IsTime r → lex_le r (format_hora 17 30) ≡ leb (minutes_of r) (17 * 60 + 30)
  lex_le-IsTime r t =
      subst (λ s. lex_le s (format_hora 17 30) ≡ leb (minutes_of s) (17 * 60 + 30)) (sym t.written)
        (rw (minutes_of-format_hora t.hour t.minute t.hour_lt t.minute_lt) (
          lex_le-format_hora t.hour t.minute 17 30 (omega arith) t.minute_lt (omega arith)
            (omega arith)))

  -- A text is right for a delivery exactly when it is read as a time not after 17:30, by the minutes.
  horario_entrega_permitido_lem :
      (txt : Codes)
      → horario_entrega_permitido digits txt
        ≡ elim (parse_hora digits txt) [ none ↦ false | some r ↦ leb (minutes_of r) (17 * 60 + 30) ]
  unfolding horario_entrega_permitido
  horario_entrega_permitido_lem txt = elim (Option-cases (parse_hora digits txt)) [
    | inl unread ↦ rw (unread, horario_entrega_permitido) refl
    | inr (r, read) ↦
        rw (read, horario_entrega_permitido) (lex_le-IsTime r (parse_hora-IsTime txt r read))
  ]
