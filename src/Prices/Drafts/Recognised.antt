-- ===== src/Prices/Drafts/Recognised.antt =====
-- Products that are recognised have a price.
use mathlib.Core.Path.{subst}
use chokobot.Prices.Tables.{Price, ingles, tortas}
use chokobot.Prices.Totals.{Casing, calcular_total, is_empty}
use chokobot.Prices.Drafts.{
  Dados, linha_canonica, or_text, is_missing, is_sized, normaliza_produto, gourmet_aliases,
  tortas_aliases, monta_pedido_final,
}
use chokobot.Prices.Drafts.Computed.{
  is_priced, is_in, has_price, has_price_for, is_priced-calcular_total,
}
use chokobot.Common.{
  ◌≡◌, ◌∙◌, refl, sym, Bool, true, false, ◌&&◌, some, String, Dict, [], ◌∷◌, lookup, has_key, strip,
  str_eq, one_of, not, arith, Bool-cases, inl, inr, ◌⊎◌,
}

-- the names that a dictionary gives are all in a table, and none is empty
names_in : Dict String → Dict Price → Bool
names_in [] table = true
names_in ((key, name) ∷ names) table =
    let rest = names_in names table in (has_key name table && not (is_empty name)) && rest

some_name : {a b : String} → some a ≡ some b → a ≡ b
some_name e = cc

both : (a b : Bool) → a && b ≡ true → (a ≡ true) × (b ≡ true)
both true b h = (refl, h)
both false b h = absurd cc

nonempty : (b c : Bool) → b && not c ≡ true → (b ≡ true) × (c ≡ false)
nonempty true true h = absurd cc
nonempty false true h = absurd cc
nonempty true false h = (refl, refl)
nonempty false false h = absurd cc

names_in-lookup :
    (names : Dict String) (table : Dict Price) (key name : String)
    → names_in names table ≡ true
    → lookup key names ≡ some name
    → (has_key name table ≡ true) × (is_empty name ≡ false)
unfolding names_in lookup
names_in-lookup [] table key name h e = absurd cc
names_in-lookup ((j, v) ∷ names) table key name h e =
    let (here, rest) = both _ _ h in
    elim (Bool-cases (str_eq j key)) [
      | inl f ↦
          subst (λ n. (has_key n table ≡ true) × (is_empty n ≡ false))
            (some_name (rw (lookup, f) at e)) (nonempty _ _ here)
      | inr f ↦ names_in-lookup names table key name rest (rw (lookup, f) at e)
    ]

gourmet_names : names_in gourmet_aliases ingles ≡ true
unfolding names_in gourmet_aliases ingles lookup
gourmet_names = refl

tortas_names : names_in tortas_aliases tortas ≡ true
unfolding names_in tortas_aliases tortas lookup
tortas_names = refl

module _ (casing : Casing) where
  -- the draft of a line with a product that was recognised
  abbrev pub chosen : String → String → Dados → Dados
  chosen linha produto d = record d { linha = some linha; produto = some produto }

  has_price_for-gourmet :
      (d : Dados) (produto : String)
      → is_empty produto ≡ false
      → has_price_for casing "gourmet" (chosen "gourmet" produto d) ≡ has_key produto ingles
  unfolding has_price_for is_sized is_missing one_of is_in
  has_price_for-gourmet d produto e = ground arith

  has_price_for-torta :
      (d : Dados) (produto : String)
      → is_empty produto ≡ false
      → has_price_for casing "torta" (chosen "torta" produto d) ≡ has_key produto tortas
  unfolding has_price_for is_sized is_missing one_of is_in
  has_price_for-torta d produto e = ground arith

  has_price-gourmet :
      (nome produto : String) (d : Dados)
      → casing.lower "gourmet" ≡ "gourmet"
      → normaliza_produto casing "gourmet" nome ≡ some produto
      → has_price casing (chosen "gourmet" produto d) ≡ true
  unfolding has_price or_text linha_canonica strip one_of normaliza_produto
  has_price-gourmet nome produto d low found =
      let (known, named) =
        names_in-lookup gourmet_aliases ingles (casing.lower (strip nome)) produto gourmet_names
          found in
      rw low (has_price_for-gourmet d produto named ∙ known)

  has_price-torta :
      (nome produto : String) (d : Dados)
      → casing.lower "torta" ≡ "torta"
      → normaliza_produto casing "torta" nome ≡ some produto
      → has_price casing (chosen "torta" produto d) ≡ true
  unfolding has_price or_text linha_canonica strip one_of normaliza_produto
  has_price-torta nome produto d low found =
      let (known, named) =
        names_in-lookup tortas_aliases tortas (casing.lower (strip nome)) produto tortas_names
          found in
      rw low (has_price_for-torta d produto named ∙ known)

  -- A draft of the line gourmet or torta, with a product that was recognised in that line, has a total that
  -- is computed, whatever else it has.
  pub calcular_total-normaliza_produto :
      (linha nome produto : String) (d : Dados)
      → casing.lower linha ≡ linha
      → (linha ≡ "gourmet") ⊎ (linha ≡ "torta")
      → normaliza_produto casing linha nome ≡ some produto
      → is_priced (calcular_total casing (monta_pedido_final casing (chosen linha produto d)))
        ≡ true
  calcular_total-normaliza_produto linha nome produto d low which found =
      let Computes : String → Type 0 = λ l.
        casing.lower l ≡ l
        → normaliza_produto casing l nome ≡ some produto
        → has_price casing (chosen l produto d) ≡ true in
      is_priced-calcular_total casing (chosen linha produto d) ∙ elim which [
        | inl e ↦ subst Computes (sym e) (has_price-gourmet nome produto d) low found
        | inr e ↦ subst Computes (sym e) (has_price-torta nome produto d) low found
      ]
