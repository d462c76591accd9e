-- ===== src/Security/Phones/Numbers.antt =====
-- Which phones are blocked, by their national numbers.
use chokobot.Clock.{Codes}
use chokobot.Schedule.Calendar.{same_codes, member_codes}
use chokobot.Security.Phones.{
  starts_55, variants_of, intersects, normalize_phone, phone_variants, blocked_variants,
  is_phone_automation_disabled,
}
use chokobot.Common.{
  ℕ, ◌≤◌, ◌<◌, ◌≡◌, refl, sym, ◌∙◌, ◌⊎◌, inl, inr, Bool, true, false, ◌||◌, List, [], ◌∷◌, ◌++◌,
  length, ltb, ◌==◌, arith, Bool-cases,
}

-- the national number of a normalized phone: ten or eleven digits, which may follow the country code
unfoldable pub HasNational : Codes → Codes → Type 0
HasNational phone national =
    (10 ≤ length national)
    × (length national ≤ 11)
    × ((phone ≡ national) ⊎ (phone ≡ 53 ∷ 53 ∷ national))

module _ (isdigit : ℕ → Bool) where
  -- the national numbers of blocked phones
  unfoldable pub HaveNationals : List Codes → List Codes → Type 0
  HaveNationals [] [] = Unit
  HaveNationals (phone ∷ phones) (national ∷ nationals) =
      HasNational (normalize_phone isdigit phone) national × HaveNationals phones nationals
  HaveNationals _ _ = ⊥

or_assoc : (a b c : Bool) → a || (b || c) ≡ (a || b) || c
or_assoc true b c = refl
or_assoc false b c = refl

or_swap : (a b c d : Bool) → (a || b) || (c || d) ≡ (a || c) || (b || d)
or_swap a b c d = ground arith

same_codes-length : (a b : Codes) → length a < length b → same_codes a b ≡ false
unfolding same_codes
same_codes-length [] [] p = absurd (omega arith)
same_codes-length [] (b ∷ bs) p = refl
same_codes-length (a ∷ as') [] p = refl
same_codes-length (a ∷ as') (b ∷ bs) p =
    let e = same_codes-length as' bs (omega arith) in rw (same_codes, e) (ground arith)

same_codes-sym : (a b : Codes) → same_codes a b ≡ same_codes b a
unfolding same_codes
same_codes-sym [] [] = refl
same_codes-sym [] (b ∷ bs) = refl
same_codes-sym (a ∷ as') [] = refl
same_codes-sym (a ∷ as') (b ∷ bs) = ground (arith, same_codes-sym as' bs)

variants_of-national :
    (x : Codes) → 10 ≤ length x → length x ≤ 11 → variants_of x ≡ x ∷ (53 ∷ 53 ∷ x) ∷ []
unfolding variants_of
variants_of-national [] p q = absurd (omega arith)
variants_of-national (c ∷ cs) p q =
    let short : ltb 11 (length (c ∷ cs)) ≡ false = ground arith in
    let national : (length (c ∷ cs) == 10 || length (c ∷ cs) == 11) ≡ true = ground arith in
    rw national
      (elim (Bool-cases (starts_55 (c ∷ cs))) [ inl e ↦ rw (e, short) refl | inr e ↦ rw e refl ])

variants_of-international :
    (x : Codes) → 10 ≤ length x → length x ≤ 11 → variants_of (53 ∷ 53 ∷ x) ≡ (53 ∷ 53 ∷ x) ∷ x ∷ []
unfolding variants_of starts_55
variants_of-international x p q =
    let long : ltb 11 (length (53 ∷ 53 ∷ x)) ≡ true = ground arith in
    let foreign : (length (53 ∷ 53 ∷ x) == 10 || length (53 ∷ 53 ∷ x) == 11) ≡ false =
      ground arith in
    rw (long, foreign) refl

member_codes-append :
    (t : Codes) (xs ys : List Codes)
    → member_codes t (xs ++ ys) ≡ (member_codes t xs || member_codes t ys)
unfolding member_codes
member_codes-append t [] ys = refl
member_codes-append t (x ∷ xs) ys = rw (member_codes-append t xs ys) (or_assoc (same_codes t x) _ _)

intersects-append :
    (ts xs ys : List Codes) → intersects ts (xs ++ ys) ≡ (intersects ts xs || intersects ts ys)
unfolding intersects
intersects-append [] xs ys = refl
intersects-append (t ∷ ts) xs ys =
    rw (member_codes-append t xs ys, intersects-append ts xs ys)
      (or_swap (member_codes t xs) (member_codes t ys) (intersects ts xs) (intersects ts ys))

or_twice : (b : Bool) → (b || false) || ((b || false) || false) ≡ b
or_twice true = refl
or_twice false = refl

-- the two variants of a phone, in one order or the other
variants_of-national_number :
    (n x : Codes)
    → HasNational n x
    → (variants_of n ≡ x ∷ (53 ∷ 53 ∷ x) ∷ []) ⊎ (variants_of n ≡ (53 ∷ 53 ∷ x) ∷ x ∷ [])
unfolding HasNational
variants_of-national_number n x (low, high, inl e) = inl (rw e (variants_of-national x low high))
variants_of-national_number n x (low, high, inr e) =
    inr (rw e (variants_of-international x low high))

intersects-nothing : (ts : List Codes) → intersects ts [] ≡ false
unfolding intersects member_codes
intersects-nothing [] = refl
intersects-nothing (t ∷ ts) = intersects-nothing ts

-- two phones have a variant in common exactly when they have one national number
intersects-variants_of :
    (n m x y : Codes)
    → HasNational n x
    → HasNational m y
    → intersects (variants_of n) (variants_of m) ≡ same_codes x y
unfolding intersects member_codes HasNational same_codes
intersects-variants_of n m x y (lx, hx, kx) (ly, hy, ky) =
    let f = same_codes-length x (53 ∷ 53 ∷ y) (omega arith) in
    let g = same_codes-sym (53 ∷ 53 ∷ x) y ∙ same_codes-length y (53 ∷ 53 ∷ x) (omega arith) in
    elim (variants_of-national_number n x (lx, hx, kx)) [
      | inl e ↦ elim (variants_of-national_number m y (ly, hy, ky)) [
        | inl h ↦ rw (e, h, f, g) (or_twice (same_codes x y))
        | inr h ↦ rw (e, h, f, g) (or_twice (same_codes x y))
      ]
      | inr e ↦ elim (variants_of-national_number m y (ly, hy, ky)) [
        | inl h ↦ rw (e, h, f, g) (or_twice (same_codes x y))
        | inr h ↦ rw (e, h, f, g) (or_twice (same_codes x y))
      ]
    ]

module _ (isdigit : ℕ → Bool) where
  intersects-blocked_variants :
      (n x : Codes) (phones nationals : List Codes)
      → HasNational n x
      → HaveNationals isdigit phones nationals
      → intersects (variants_of n) (blocked_variants isdigit phones) ≡ member_codes x nationals
  unfolding HaveNationals blocked_variants member_codes phone_variants
  intersects-blocked_variants n x [] [] p q = intersects-nothing (variants_of n)
  intersects-blocked_variants n x [] (y ∷ ys) p q = absurd q
  intersects-blocked_variants n x (b ∷ bs) [] p q = absurd q
  intersects-blocked_variants n x (b ∷ bs) (y ∷ ys) p (q, qs) =
      let here = intersects-variants_of n (normalize_phone isdigit b) x y p q in
      let rest = intersects-blocked_variants n x bs ys p qs in
      intersects-append (variants_of n) (variants_of (normalize_phone isdigit b))
        (blocked_variants isdigit bs)
      ∙ rw (here, rest) refl

  -- Among phones of ten or eleven digits, with or without the country code 55 and in whatever
  -- punctuation, a phone is left alone by the automation exactly when its national number is that of a
  -- blocked phone.
  pub is_phone_automation_disabled_lem :
      (phones nationals : List Codes) (phone national : Codes)
      → HaveNationals isdigit phones nationals
      → HasNational (normalize_phone isdigit phone) national
      → is_phone_automation_disabled isdigit phones phone ≡ member_codes national nationals
  unfolding is_phone_automation_disabled phone_variants
  is_phone_automation_disabled_lem [] nationals phone national q p =
      sym (intersects-nothing (phone_variants isdigit phone))
      ∙ intersects-blocked_variants (normalize_phone isdigit phone) national [] nationals p q
  is_phone_automation_disabled_lem (b ∷ bs) nationals phone national q p =
      intersects-blocked_variants (normalize_phone isdigit phone) national (b ∷ bs) nationals p q
