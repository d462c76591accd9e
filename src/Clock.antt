-- ===== src/Clock.antt =====
-- Times of day as the program writes them: `_parse_hora` and `_horario_entrega_permitido` of
-- app/services/encomendas_utils.py. A text is the list of its code points, and a time is the text
-- HH:MM, which the program compares as a text.

pub mod Order
pub mod Parsing
use chokobot.Common.{
  ℕ, ◌+◌, ◌-◌, ◌*◌, ◌/◌, ◌%◌, ◌<◌, ◌≡◌, Bool, true, false, ◌&&◌, Option, none, some, List, [], ◌∷◌,
  ◌++◌, map, is_space, leb, ltb, ◌==◌, if◌then◌else◌,
}

abbrev pub Codes : Type 0
Codes = List ℕ

-- The decimal digits of Unicode (`\d`, and `int` on them).
pub record Digits : Type 0 where
  pub decimal : ℕ → Option ℕ
  pub decimal_lt : (c d : ℕ) → decimal c ≡ some d → d < 10
  pub decimal_ascii : (d : ℕ) → d < 10 → decimal (48 + d) ≡ some d
  pub decimal_colon : decimal 58 ≡ none

-- `a <= b` for texts
unfoldable pub lex_le : Codes → Codes → Bool
lex_le [] bs = true
lex_le (a ∷ as') [] = false
lex_le (a ∷ as') (b ∷ bs) =
    let rest = lex_le as' bs in if ltb a b then true else if a == b then rest else false

-- `str.strip`
unfoldable pub lstrip_codes : Codes → Codes
unfolding is_space
lstrip_codes [] = []
lstrip_codes (c ∷ cs) = let rest = lstrip_codes cs in if is_space c then rest else c ∷ cs

unfoldable pub rstrip_codes : Codes → Codes
unfolding is_space
rstrip_codes [] = []
rstrip_codes (c ∷ cs) = elim (rstrip_codes cs) [
  | [] ↦ if is_space c then [] else c ∷ []
  | d ∷ ds ↦ c ∷ d ∷ ds
]

unfoldable pub strip_codes : Codes → Codes
unfolding lstrip_codes rstrip_codes
strip_codes cs = rstrip_codes (lstrip_codes cs)

-- `str.lower`, as far as the patterns below can tell: no other letter stands in them.
abbrev pub lower_code : ℕ → ℕ
lower_code c = if c == b'H' then b'h' else c

-- f"{h:02d}:{m:02d}" for numbers below 100
abbrev pub two_digits : ℕ → Codes
two_digits n = (48 + n / 10) ∷ (48 + n % 10) ∷ []

unfoldable pub format_hora : ℕ → ℕ → Codes
format_hora h m = two_digits h ++ 58 ∷ two_digits m

abbrev pub number : Option ℕ → Option ℕ → Option ℕ
number (some a) (some b) = some (a * 10 + b)
number _ _ = none

-- the text of a time, if it is one
unfoldable pub clock : Option ℕ → Option ℕ → Option Codes
clock (some h) (some m) = if leb h 23 && leb m 59 then some (format_hora h m) else none
clock _ _ = none

unfoldable pub or_else : Option Codes → Option Codes → Option Codes
or_else (some r) other = some r
or_else none other = other

module _ (digits : Digits) where
  abbrev pub digit : ℕ → Option ℕ
  digit = digits.decimal

  -- `^(\d{1,2})h?$`
  unfoldable pub hour_only : Codes → Option ℕ
  hour_only (a ∷ []) = digit a
  hour_only (a ∷ b ∷ []) = if b == b'h' then digit a else number (digit a) (digit b)
  hour_only (a ∷ b ∷ c ∷ []) = if c == b'h' then number (digit a) (digit b) else none
  hour_only _ = none

  -- `^(\d{1,2})h(\d{2})$`
  unfoldable pub hour_h_minute : Codes → Option Codes
  hour_h_minute (a ∷ h ∷ m ∷ n ∷ []) =
      if h == b'h' then clock (digit a) (number (digit m) (digit n)) else none
  hour_h_minute (a ∷ b ∷ h ∷ m ∷ n ∷ []) =
      if h == b'h' then clock (number (digit a) (digit b)) (number (digit m) (digit n)) else none
  hour_h_minute _ = none

  -- `^(\d{1,2})(\d{2})$`
  unfoldable pub hour_minute : Codes → Option Codes
  hour_minute (a ∷ m ∷ n ∷ []) = clock (digit a) (number (digit m) (digit n))
  hour_minute (a ∷ b ∷ m ∷ n ∷ []) = clock (number (digit a) (digit b)) (number (digit m) (digit n))
  hour_minute _ = none

  -- %M of `strptime`, `[0-5]\d|\d`, up to the end of the text
  unfoldable pub strptime_minute : Codes → Option ℕ
  strptime_minute (m ∷ []) = digit m
  strptime_minute (m ∷ n ∷ []) =
      if leb 48 m && leb m 53 then number (some (m - 48)) (digit n) else none
  strptime_minute _ = none

  -- %H of two characters, `2[0-3]|[0-1]\d`
  unfoldable pub strptime_hour : ℕ → ℕ → Option ℕ
  strptime_hour a b =
      if a == 50 && (leb 48 b && leb b 51)
      then some (20 + (b - 48))
      else if leb 48 a && leb a 49
      then number (some (a - 48)) (digit b)
      else none

  -- the time with an hour of two characters, from the colon on
  unfoldable pub strptime_long : ℕ → ℕ → Codes → Option Codes
  unfolding strptime_minute strptime_hour
  strptime_long a b [] = none
  strptime_long a b (c ∷ rest) =
      if c == 58 then clock (strptime_hour a b) (strptime_minute rest) else none

  -- `datetime.strptime(t, "%H:%M")`, written as HH:MM
  unfoldable pub strptime : Codes → Option Codes
  unfolding strptime_minute strptime_long
  strptime (a ∷ b ∷ rest) =
      if b == 58 then clock (digit a) (strptime_minute rest) else strptime_long a b rest
  strptime _ = none

  unfoldable pub parse_hora : Codes → Option Codes
  unfolding hour_only hour_h_minute hour_minute strptime clock or_else strip_codes
  parse_hora txt =
      let t = map lower_code (strip_codes txt) in
      or_else (clock (hour_only t) (some 0))
        (or_else (hour_h_minute t) (or_else (hour_minute t) (strptime t)))

  -- `hora <= LIMITE_HORARIO_ENTREGA`, which is "17:30"
  unfoldable pub horario_entrega_permitido : Codes → Bool
  horario_entrega_permitido txt = elim (parse_hora txt) [
    | none ↦ false
    | some hora ↦ lex_le hora (format_hora 17 30)
  ]
