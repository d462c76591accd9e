-- ===== src/Prices/Additions.antt =====
-- What an addition does to the price of a traditional cake.
use chokobot.Prices.Tables.{Price, tradicional_base, tradicional_adicionais}
use chokobot.Prices.Totals.{
  Casing, Result, fails, priced, alias_fruta, with_addition, preco_tradicional,
}
use chokobot.Common.{
  ℕ, ◌+◌, ◌≤◌, ◌≡◌, refl, Option, none, some, String, Dict, lookup, strip, str_eq, arith,
  Bool-cases, Option-cases, inl, inr,
}

-- the price with an addition is not below the price without, and at most 70 reais above; the cake serves
-- as many people
pub Dearer : Result Price → Result Price → Type 0
Dearer (priced (p, s)) (priced (q, t)) = (p ≤ q) × (q ≤ p + 70) × (s ≡ t)
Dearer (fails e) (fails f) = e ≡ f
Dearer _ _ = ⊥

-- the prices of one table, from a base price on
AtLeast : ℕ → Dict ℕ → Type 0
AtLeast base additions =
    (fruta : String) (p : ℕ) → lookup fruta additions ≡ some p → (base ≤ p) × (p ≤ base + 70)

prices_of_size :
    (t : String) (base : Price) (additions : Dict ℕ)
    → lookup t tradicional_base ≡ some base
    → lookup t tradicional_adicionais ≡ some additions
    → AtLeast base.0 additions
unfolding lookup tradicional_base tradicional_adicionais AtLeast
prices_of_size t base additions e f = λ fruta p h. ground arith

within :
    (casing : Casing) (additions : Dict ℕ) (base : Price) (o : Option String)
    → AtLeast base.0 additions
    → Dearer (priced base) (priced (with_addition casing additions base o))
unfolding with_addition Dearer AtLeast
within casing additions base none h = (omega arith, omega arith, refl)
within casing additions base (some fruta) h = elim (Bool-cases (str_eq fruta "")) [
  | inl e ↦ rw (Dearer, with_addition, e) (omega arith, omega arith, refl)
  | inr e ↦ elim (Option-cases (lookup fruta additions)) [
    | inl f ↦ rw (Dearer, with_addition, e, f) (omega arith, omega arith, refl)
    | inr (p, f) ↦
        let (low, high) = h fruta p f in rw (Dearer, with_addition, e, f) (low, high, refl)
  ]
]

module _ (casing : Casing) where
  -- For any size, an addition makes a traditional cake never cheaper and at most 70 reais dearer, for as
  -- many people; an unknown size fails in the same way with and without it.
  pub preco_tradicional-Dearer :
      (tamanho : String) (fruta : Option String)
      → Dearer (preco_tradicional casing tamanho none) (preco_tradicional casing tamanho fruta)
  unfolding preco_tradicional with_addition Dearer
  preco_tradicional-Dearer tamanho fruta =
      let t = casing.upper (strip tamanho) in
      elim (Option-cases (lookup t tradicional_base)) [
        | inl e ↦ rw (preco_tradicional, e) refl
        | inr (base, e) ↦ elim (Option-cases (lookup t tradicional_adicionais)) [
          | inl f ↦ rw (preco_tradicional, e, f) refl
          | inr (additions, f) ↦
              rw (preco_tradicional, e, f)
                (within casing additions base (alias_fruta casing fruta)
                  (prices_of_size t base additions e f))
        ]
      ]
