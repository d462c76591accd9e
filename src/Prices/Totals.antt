-- ===== src/Prices/Totals.antt =====
-- `calcular_total` and what it calls, of app/services/precos.py.
use chokobot.Prices.Tables.{
  Price, kit_festou_preco, tradicional_base, tradicional_adicionais, embrulhado, ingles,
  redondos_p6, tortas, mesversario, alias_adicionais, coberturas,
}
use chokobot.Schedule.Calendar.{ℤ, pos, negsuc}
use chokobot.Common.{
  ℕ, zero, suc, ◌+◌, ◌-◌, ◌*◌, Bool, ◌&&◌, Option, none, some, String, Dict, lookup, strip, str_eq,
  ltb, if◌then◌else◌,
}

-- `str.upper`, `str.lower` and `str.title`
pub record Casing : Type 0 where
  pub upper : String → String
  pub lower : String → String
  pub title : String → String

-- the exceptions that a price ends with
pub data PriceError : Type 0 where
  key_error : PriceError
  value_error : PriceError
  attribute_error : PriceError

pub data Result {ℓ} (A : Type ℓ) : Type ℓ where
  fails : PriceError → Result A
  priced : A → Result A

-- An order. A field that is read with `pedido[key]` is missing, or `None`, or a text.
pub record Pedido : Type 0 where
  pub categoria : Option String
  pub tamanho : Option (Option String)
  pub fruta_ou_nozes : Option String
  pub pedacos : Option (Option String)
  pub produto : Option (Option String)
  pub cobertura : Option String
  pub kit_festou : Bool
  -- a number, or nothing where the key is missing
  pub quantidade : Option ℤ

-- `not text`
abbrev pub is_empty : String → Bool
is_empty t = str_eq t ""

abbrev pub flat : Option (Option String) → Option String
flat none = none
flat (some o) = o

-- `table[key]`
unfoldable pub price_in : Dict Price → Option String → Result Price
unfolding lookup
price_in table none = fails key_error
price_in table (some key) = elim (lookup key table) [ none ↦ fails key_error | some p ↦ priced p ]

-- `a or b` for texts
unfoldable pub text_or : Option String → String → String
text_or none b = b
text_or (some a) b = if is_empty a then b else a

module _ (casing : Casing) where
  unfoldable pub calcular_preco_simples : String → ℕ
  unfolding lookup coberturas
  calcular_preco_simples cobertura = elim (lookup (casing.title cobertura) coberturas) [
    | none ↦ 0
    | some p ↦ p
  ]

  unfoldable pub alias_fruta : Option String → Option String
  unfolding lookup alias_adicionais strip
  alias_fruta none = none
  alias_fruta (some valor) =
      if is_empty valor then none else elim (lookup (casing.lower (strip valor)) alias_adicionais) [
        | none ↦ some (casing.title (strip valor))
        | some fruta ↦ some fruta
      ]

  -- the price with an addition, in the table of a size: the base price for an addition that is unknown
  unfoldable pub with_addition : Dict ℕ → Price → Option String → Price
  unfolding lookup
  with_addition additions base none = base
  with_addition additions base (some fruta) =
      if is_empty fruta
      then base
      else elim (lookup fruta additions) [ none ↦ base | some p ↦ (p, base.1) ]

  unfoldable pub preco_tradicional : String → Option String → Result Price
  unfolding lookup tradicional_base tradicional_adicionais alias_fruta with_addition strip
  preco_tradicional tamanho fruta_ou_nozes =
      let t = casing.upper (strip tamanho) in
      elim (lookup t tradicional_base) [
        | none ↦ fails key_error
        | some base ↦ elim (lookup t tradicional_adicionais) [
          | none ↦ fails key_error
          | some additions ↦ priced (with_addition additions base (alias_fruta fruta_ou_nozes))
        ]
      ]

  -- `preco_tradicional(pedido["tamanho"], ...)`
  unfoldable pub traditional_item : Option (Option String) → Option String → Result Price
  unfolding preco_tradicional
  traditional_item none fruta = fails key_error
  traditional_item (some none) fruta = fails attribute_error
  traditional_item (some (some t)) fruta = preco_tradicional t fruta

  -- the branches by `categoria`
  unfoldable pub category_price : Pedido → String → Result Price
  unfolding traditional_item price_in calcular_preco_simples text_or embrulhado ingles redondos_p6
      mesversario tortas
  category_price p categoria =
      if str_eq categoria "tradicional"
      then traditional_item p.tamanho p.fruta_ou_nozes
      else if str_eq categoria "embrulhado"
      then price_in embrulhado (flat p.pedacos)
      else if str_eq categoria "ingles"
      then price_in ingles (flat p.produto)
      else if str_eq categoria "redondo"
      then price_in redondos_p6 (flat p.produto)
      else if str_eq categoria "mesversario"
      then price_in mesversario (flat p.tamanho)
      else if str_eq categoria "torta"
      then price_in tortas (flat p.produto)
      else if str_eq categoria "simples"
      then priced
          (calcular_preco_simples (text_or p.cobertura (text_or (flat p.produto) "Simples")), 8)
      else fails value_error

  unfoldable pub base_price : Pedido → Result Price
  unfolding category_price
  base_price p = elim p.categoria [
    | none ↦ fails value_error
    | some categoria ↦ category_price p categoria
  ]

  -- `total *= q`
  unfoldable pub times : ℕ → ℤ → ℤ
  times total (pos q) = pos (total * q)
  times zero (negsuc n) = pos 0
  times (suc total) (negsuc n) = negsuc (suc total * (n + 1) - 1)

  -- `if q > 1 and serve: serve *= q`
  unfoldable pub servings : ℕ → ℤ → ℕ
  servings serve (pos q) = if ltb 1 q && ltb 0 serve then serve * q else serve
  servings serve (negsuc n) = serve

  abbrev pub quantity_of : Option ℤ → ℤ
  quantity_of none = pos 1
  quantity_of (some q) = q

  -- from the price of one cake on
  unfoldable pub total_of : Pedido → Result Price → Result (ℤ × ℕ)
  unfolding times servings
  total_of p (fails e) = fails e
  total_of p (priced (preco, serve)) =
      let total = if p.kit_festou then preco + kit_festou_preco else preco in
      let q = quantity_of p.quantidade in priced (times total q, servings serve q)

  unfoldable pub calcular_total : Pedido → Result (ℤ × ℕ)
  unfolding base_price total_of
  calcular_total p = total_of p (base_price p)
