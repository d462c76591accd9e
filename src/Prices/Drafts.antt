-- ===== src/Prices/Drafts.antt =====
-- The order that a draft of the cake flow becomes: `_monta_pedido_final` of app/services/encomendas.py
-- and `_linha_canonica`, `_normaliza_produto` of app/services/encomendas_utils.py. The dates, the sweets
-- and the description of the order, which no price reads, are left out.
pub mod Computed
pub mod Recognised
use chokobot.Prices.Totals.{Casing, Pedido, is_empty}
use chokobot.Schedule.Calendar.{ℤ, pos}
use chokobot.Common.{
  Bool, true, false, not, ◌&&◌, ◌||◌, Option, none, some, String, Dict, [], ◌∷◌, lookup, strip,
  str_eq, one_of, is_some, if◌then◌else◌,
}

-- the draft `dados`, as far as the order is priced by it
pub record Dados : Type 0 where
  pub linha : Option String
  pub tamanho : Option String
  pub produto : Option String
  pub adicional : Option String
  pub kit_festou : Bool

unfoldable pub tortas_aliases : Dict String
tortas_aliases =
    ("argentina", "Argentina")
    ∷ ("argentino", "Argentina")
    ∷ ("banoffee", "Banoffee")
    ∷ ("cheesecake", "Cheesecake Tradicional Versão Baixa")
    ∷ ("cheesecake tradicional", "Cheesecake Tradicional Versão Baixa")
    ∷ ("cheesecake tradicional baixa", "Cheesecake Tradicional Versão Baixa")
    ∷ ("cheesecake baixa", "Cheesecake Tradicional Versão Baixa")
    ∷ ("cheesecake tradicional alta", "Cheesecake Tradicional Versão Alta")
    ∷ ("cheesecake alta", "Cheesecake Tradicional Versão Alta")
    ∷ ("cheesecake tradicional versao baixa", "Cheesecake Tradicional Versão Baixa")
    ∷ ("cheesecake tradicional versão baixa", "Cheesecake Tradicional Versão Baixa")
    ∷ ("cheesecake tradicional versao alta", "Cheesecake Tradicional Versão Alta")
    ∷ ("cheesecake tradicional versão alta", "Cheesecake Tradicional Versão Alta")
    ∷ ("cheesecake pistache", "Cheesecake Pistache")
    ∷ ("pistache", "Cheesecake Pistache")
    ∷ ("citrus pie", "Citrus Pie")
    ∷ ("limao", "Limão")
    ∷ ("limão", "Limão")
    ∷ []

unfoldable pub redondos_aliases : Dict String
redondos_aliases =
    ("lingua de gato", "Língua de Gato")
    ∷ ("língua de gato", "Língua de Gato")
    ∷ ("branco camafeu", "Branco Camafeu")
    ∷ ("belga", "Belga")
    ∷ ("naked cake", "Naked Cake")
    ∷ ("red velvet", "Red Velvet")
    ∷ []

unfoldable pub gourmet_aliases : Dict String
gourmet_aliases =
    ("belga", "Belga")
    ∷ ("bolo pudim", "Bolo Pudim")
    ∷ ("pudim", "Bolo Pudim")
    ∷ ("floresta negra", "Floresta Negra")
    ∷ ("língua de gato", "Língua de Gato")
    ∷ ("lingua de gato", "Língua de Gato")
    ∷ ("ninho com morango", "Ninho com Morango")
    ∷ ("ninho c/ morango", "Ninho com Morango")
    ∷ ("nozes com doce de leite", "Nozes com Doce de Leite")
    ∷ ("nozes c/ doce de leite", "Nozes com Doce de Leite")
    ∷ ("olho de sogra", "Olho de Sogra")
    ∷ ("red velvet", "Red Velvet")
    ∷ []

-- `value or default`
unfoldable pub or_text : Option String → String → String
or_text none b = b
or_text (some a) b = if is_empty a then b else a

-- `not value`
unfoldable pub is_missing : Option String → Bool
is_missing none = true
is_missing (some a) = is_empty a

module _ (casing : Casing) where
  unfoldable pub linha_canonica : String → String
  unfolding strip one_of
  linha_canonica valor =
      let linha = casing.lower (strip valor) in
      if one_of linha ("normal" ∷ "tradicional" ∷ []) then "tradicional" else linha

  unfoldable pub normaliza_produto : String → String → Option String
  unfolding strip lookup tortas_aliases redondos_aliases gourmet_aliases
  normaliza_produto linha nome =
      let key = casing.lower (strip nome) in
      if str_eq linha "torta"
      then lookup key tortas_aliases
      else if str_eq linha "redondo"
      then lookup key redondos_aliases
      else if str_eq linha "gourmet"
      then lookup key gourmet_aliases
      else none

  -- the addition of the order
  unfoldable pub fruta_de : Option String → Option String
  unfolding strip one_of or_text
  fruta_de adicional =
      let txt = casing.lower (strip (or_text adicional "")) in
      if one_of txt ("" ∷ "nenhum" ∷ "nao" ∷ "não" ∷ [])
      then none
      else some (casing.title (or_text adicional ""))

  -- the order of a category, with a size or with a product
  unfoldable pub order_of :
      Dados → String → Option (Option String) → Option (Option String) → Option String → Pedido
  order_of d categoria tamanho produto fruta = record {
    categoria = some categoria;
    tamanho = tamanho;
    fruta_ou_nozes = fruta;
    pedacos = none;
    produto = produto;
    cobertura = none;
    kit_festou = d.kit_festou;
    quantidade = some (pos 1);
  }

  -- the first test: a line with sizes, or a size and no product
  unfoldable pub is_sized : String → Dados → Bool
  unfolding one_of is_missing
  is_sized linha d =
      one_of linha ("tradicional" ∷ "pronta_entrega" ∷ [])
      || (is_some d.tamanho && is_missing d.produto)

  -- the branches by line
  unfoldable pub order_for : String → Dados → Pedido
  unfolding is_sized fruta_de order_of
  order_for linha d =
      if is_sized linha d
      then order_of d "tradicional" (some d.tamanho) none (fruta_de d.adicional)
      else if str_eq linha "gourmet"
      then order_of d "ingles" none (some d.produto) none
      else if str_eq linha "redondo"
      then order_of d "redondo" none (some d.produto) none
      else if str_eq linha "torta"
      then order_of d "torta" none (some d.produto) none
      else order_of d "tradicional" (some d.tamanho) none none

  unfoldable pub monta_pedido_final : Dados → Pedido
  unfolding linha_canonica or_text order_for
  monta_pedido_final d = order_for (linha_canonica (or_text d.linha "tradicional")) d
