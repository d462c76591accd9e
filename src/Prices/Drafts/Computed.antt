-- ===== src/Prices/Drafts/Computed.antt =====
-- For which drafts a total is computed at all.
use chokobot.Prices.Tables.{
  Price, tradicional_base, tradicional_adicionais, ingles, redondos_p6, tortas,
}
use chokobot.Prices.Totals.{
  Casing, Pedido, Result, fails, priced, price_in, preco_tradicional, traditional_item,
  category_price, base_price, total_of, calcular_total,
}
use chokobot.Prices.Drafts.{
  Dados, linha_canonica, or_text, order_of, order_for, fruta_de, is_sized, monta_pedido_final,
}
use chokobot.Common.{
  ◌≡◌, ◌∙◌, refl, Bool, true, false, Option, none, some, String, Dict, lookup, has_key, strip,
  str_eq, is_some, arith, if◌then◌else◌, Bool-cases, Option-cases, inl, inr,
}

-- whether a result is no exception
unfoldable pub is_priced {ℓ} : {A : Type ℓ} → Result A → Bool
is_priced (fails e) = false
is_priced (priced a) = true

-- a name that is in a table
unfoldable pub is_in {ℓ} : {V : Type ℓ} → Option String → Dict V → Bool
unfolding lookup
is_in none table = false
is_in (some name) table = has_key name table

module _ (casing : Casing) where
  -- a size that is in the table of sizes, written any way
  unfoldable pub has_size : Option String → Bool
  unfolding is_in strip tradicional_base
  has_size none = false
  has_size (some t) = is_in (some (casing.upper (strip t))) tradicional_base

  -- what a draft of a line needs for its total
  unfoldable pub has_price_for : String → Dados → Bool
  unfolding has_size is_in is_sized
  has_price_for linha d =
      if is_sized casing linha d
      then has_size d.tamanho
      else if str_eq linha "gourmet"
      then is_in d.produto ingles
      else if str_eq linha "redondo"
      then is_in d.produto redondos_p6
      else if str_eq linha "torta"
      then is_in d.produto tortas
      else has_size d.tamanho

  -- what a draft needs for its total: a product of the table of its line, or a size
  unfoldable pub has_price : Dados → Bool
  unfolding linha_canonica or_text has_price_for
  has_price d = has_price_for (linha_canonica casing (or_text d.linha "tradicional")) d

  is_priced-price_in :
      (table : Dict Price) (o : Option String) → is_priced (price_in table o) ≡ is_in o table
  unfolding price_in is_in is_priced
  is_priced-price_in table none = refl
  is_priced-price_in table (some key) = elim (Option-cases (lookup key table)) [
    | inl e ↦ rw (price_in, e) refl
    | inr (p, e) ↦ rw (price_in, e) refl
  ]

  is_priced-total_of :
      (p : Pedido) (r : Result Price) → is_priced (total_of casing p r) ≡ is_priced r
  unfolding total_of is_priced
  is_priced-total_of p (fails e) = refl
  is_priced-total_of p (priced r) = refl

  -- the two tables have the same sizes
  same_sizes :
      (t : String) (base : Price)
      → lookup t tradicional_base ≡ some base
      → has_key t tradicional_adicionais ≡ true
  unfolding lookup tradicional_base tradicional_adicionais
  same_sizes t base e = ground arith

  missing : {A : Type 0} {o : Option A} → o ≡ none → is_some o ≡ true → ⊥
  missing e h = cc

  is_priced-traditional_item :
      (o fruta : Option String) → is_priced (traditional_item casing (some o) fruta) ≡ has_size o
  unfolding traditional_item has_size is_in is_priced
  is_priced-traditional_item none fruta = refl
  is_priced-traditional_item (some tamanho) fruta =
      let t = casing.upper (strip tamanho) in
      elim (Option-cases (lookup t tradicional_base)) [
        | inl e ↦ rw (preco_tradicional, e) refl
        | inr (base, e) ↦ elim (Option-cases (lookup t tradicional_adicionais)) [
          | inl f ↦ absurd (missing f (same_sizes t base e))
          | inr (additions, f) ↦ rw (preco_tradicional, e, f) refl
        ]
      ]

  -- the same for each branch
  is_priced-order_for :
      (linha : String) (d : Dados)
      → is_priced (calcular_total casing (order_for casing linha d)) ≡ has_price_for linha d
  unfolding calcular_total base_price category_price order_of order_for is_priced has_price_for
  is_priced-order_for linha d =
      let sized = order_of casing d "tradicional" (some d.tamanho) none in
      let product =
        λ (categoria : String). order_of casing d categoria none (some d.produto) none in
      elim (Bool-cases (is_sized casing linha d)) [
        | inl e ↦
            rw (order_for, has_price_for, e)
              (is_priced-total_of (sized (fruta_de casing d.adicional)) _
                ∙ is_priced-traditional_item d.tamanho _)
        | inr e ↦ elim (Bool-cases (str_eq linha "gourmet")) [
          | inl f ↦
              rw (order_for, has_price_for, e, f)
                (is_priced-total_of (product "ingles") _ ∙ is_priced-price_in ingles d.produto)
          | inr f ↦ elim (Bool-cases (str_eq linha "redondo")) [
            | inl g ↦
                rw (order_for, has_price_for, e, f, g)
                  (is_priced-total_of (product "redondo") _
                    ∙ is_priced-price_in redondos_p6 d.produto)
            | inr g ↦ elim (Bool-cases (str_eq linha "torta")) [
              | inl h ↦
                  rw (order_for, has_price_for, e, f, g, h)
                    (is_priced-total_of (product "torta") _ ∙ is_priced-price_in tortas d.produto)
              | inr h ↦
                  rw (order_for, has_price_for, e, f, g, h)
                    (is_priced-total_of (sized none) _ ∙ is_priced-traditional_item d.tamanho none)
            ]
          ]
        ]
      ]

  -- The total of the order that a draft becomes is computed, and ends with no exception, exactly when the
  -- draft has what its line needs: a product of the table of the line gourmet, redondo or torta, or, for
  -- every other line and for a draft with a size and no product, a size of the table of sizes.
  pub is_priced-calcular_total :
      (d : Dados) → is_priced (calcular_total casing (monta_pedido_final casing d)) ≡ has_price d
  unfolding monta_pedido_final has_price
  is_priced-calcular_total d =
      is_priced-order_for (linha_canonica casing (or_text d.linha "tradicional")) d
