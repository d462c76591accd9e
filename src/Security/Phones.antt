-- ===== src/Security/Phones.antt =====
-- Phones that the automation leaves alone: `_normalize_phone`, `_phone_variants` and
-- `is_phone_automation_disabled` of app/security.py. A phone is the list of its code points, and
-- `str.isdigit` is a parameter.
pub mod Numbers
use chokobot.Clock.{Codes, strip_codes}
use chokobot.Schedule.Calendar.{same_codes, member_codes}
use chokobot.Common.{
  ℕ, Bool, true, false, ◌&&◌, ◌||◌, List, [], ◌∷◌, ◌++◌, length, drop, ltb, ◌==◌, if◌then◌else◌,
}

unfoldable pub starts_55 : Codes → Bool
starts_55 (a ∷ b ∷ rest) = a == 53 && b == 53
starts_55 _ = false

-- the variants of a normalized phone
unfoldable pub variants_of : Codes → List Codes
unfolding starts_55
variants_of [] = []
variants_of (c ∷ cs) =
    let normalized : Codes = c ∷ cs in
    let national =
      if starts_55 normalized && ltb 11 (length normalized) then drop 2 normalized ∷ [] else [] in
    let international =
      if length normalized == 10 || length normalized == 11
      then (53 ∷ 53 ∷ normalized) ∷ []
      else [] in
    normalized ∷ national ++ international

-- whether two sets have an element in common
unfoldable pub intersects : List Codes → List Codes → Bool
unfolding member_codes
intersects [] ys = false
intersects (x ∷ xs) ys = let rest = intersects xs ys in member_codes x ys || rest

module _ (isdigit : ℕ → Bool) where
  unfoldable pub keep_digits : Codes → Codes
  keep_digits [] = []
  keep_digits (c ∷ cs) = let rest = keep_digits cs in if isdigit c then c ∷ rest else rest

  unfoldable pub normalize_phone : Codes → Codes
  unfolding strip_codes keep_digits
  normalize_phone phone = keep_digits (strip_codes phone)

  unfoldable pub phone_variants : Codes → List Codes
  unfolding normalize_phone variants_of
  phone_variants phone = variants_of (normalize_phone phone)

  -- the variants of all blocked phones
  unfoldable pub blocked_variants : List Codes → List Codes
  unfolding phone_variants
  blocked_variants [] = []
  blocked_variants (blocked ∷ phones) = phone_variants blocked ++ blocked_variants phones

  unfoldable pub is_phone_automation_disabled : List Codes → Codes → Bool
  unfolding phone_variants blocked_variants intersects
  is_phone_automation_disabled [] phone = false
  is_phone_automation_disabled (blocked ∷ phones) phone =
      intersects (phone_variants phone) (blocked_variants (blocked ∷ phones))
