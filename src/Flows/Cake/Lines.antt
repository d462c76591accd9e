-- ===== src/Flows/Cake/Lines.antt =====
-- The steps of `processar_encomenda` (app/services/encomendas.py) on the line of a cake, and on the make
-- of the lines tradicional, gourmet and torta.
use chokobot.Prices.Totals.{alias_fruta}
use chokobot.Prices.Tables.{tradicional_base, tradicional_adicionais, Price}
use chokobot.Prices.Drafts.{normaliza_produto}
use chokobot.Flows.Cake.{Dados, Estado, CakeWorld, Surroundings, Reply, Step, stays}
use chokobot.Flows.Cake.Stages
use chokobot.Flows.Cake.Stages.{
  Etapa, etapa_1, etapa_2, etapa_3, etapa_4, etapa_5, gourmet_tipo, gourmet_ingles, gourmet_kit,
  gourmet, gourmet_redondo, mesversario, babycake, simples, data_entrega,
}
use chokobot.Flows.Cake.Texts.Lines.{
  ask_massa, ask_gourmet, ask_mesversario, ask_babycake, ask_torta, ask_simples, menu_linhas,
  wrong_massa, ask_recheio, casadinho_chosen, wrong_recheio, ask_tamanho, ask_ingles, ask_kit,
  ask_date, ask_redondo, wrong_gourmet, ask_adicional, wrong_ingles,
}
use chokobot.Common.{
  ℕ, ◌*◌, ◌-◌, String, Option, none, some, List, [], ◌∷◌, ◌++◌, Dict, lookup, strip, str_eq, one_of,
  join, split_once, contains, if◌then◌else◌,
}

-- TAMANHO_MAP
abbrev tamanho_map : Dict String
tamanho_map =
    ("b3", "B3")
    ∷ ("mini", "B3")
    ∷ ("15", "B3")
    ∷ ("3", "B3")
    ∷ ("b4", "B4")
    ∷ ("pequeno", "B4")
    ∷ ("30", "B4")
    ∷ ("4", "B4")
    ∷ ("b6", "B6")
    ∷ ("medio", "B6")
    ∷ ("médio", "B6")
    ∷ ("50", "B6")
    ∷ ("6", "B6")
    ∷ ("b7", "B7")
    ∷ ("grande", "B7")
    ∷ ("80", "B7")
    ∷ ("7", "B7")
    ∷ []

-- `estado["linha"] = dados["linha"] = linha; estado["etapa"] = etapa`
abbrev choose_line :
    String → Etapa → Dados → String → Estado → CakeWorld → Reply × Estado × CakeWorld
choose_line linha at d body e w =
    stays at (record d { linha = some linha }) body (record e { linha = some linha }) w

-- the lines of an addition, and of the additions of a size
unfoldable pub addition_lines : (ℕ → String) → ℕ → Dict ℕ → List String
addition_lines money base [] = "" ∷ []
addition_lines money base ((fruta, total) ∷ opcoes) =
    join "" ("- " ∷ fruta ∷ " +R$" ∷ money ((total - base) * 100) ∷ [])
    ∷ addition_lines money base opcoes

abbrev base_of : Option Price → ℕ
base_of none = 0
base_of (some (preco, serve)) = preco

unfoldable pub table_lines : (ℕ → String) → Dict (Dict ℕ) → List String
unfolding addition_lines lookup tradicional_base
table_lines money [] = []
table_lines money ((tam, opcoes) ∷ sizes) =
    join "" ("📏 " ∷ tam ∷ []) ∷ addition_lines money (base_of (lookup tam tradicional_base)) opcoes
    ++ table_lines money sizes

unfoldable pub additions_table : (ℕ → String) → String
unfolding table_lines tradicional_adicionais strip join
additions_table money = strip (
    join "\n" (
      "💰 *Valores de adicionais (acréscimos sobre o bolo):*"
      ∷ ""
      ∷ table_lines money tradicional_adicionais))

abbrev or_text : Option String → String → String
or_text none b = b
or_text (some a) b = a

abbrev english_names : String
english_names =
    "Belga, Bolo Pudim, Floresta Negra, Língua de Gato, Ninho com Morango, Nozes com Doce de Leite, Olho de Sogra, Red Velvet"

-- the names of the cakes that may be meant
unfoldable pub suggestions : Option String → Option String → String
suggestions sub_linha linha =
    if str_eq (or_text sub_linha "") "ingles"
    then english_names
    else if str_eq (or_text sub_linha "") "redondo"
    then "Língua de Gato de Chocolate, Língua de Gato de Chocolate Branco, Língua de Gato Branco Camafeu, Belga, Naked Cake, Red Velvet"
    else if str_eq (or_text linha "") "torta"
    then "Argentina, Banoffee, Cheesecake Tradicional Versão Baixa, Cheesecake Tradicional Versão Alta, Cheesecake Pistache, Citrus Pie, Limão"
    else english_names

module _ (c : Surroundings) where
  unfoldable pub normaliza_tamanho : String → String
  unfolding lookup strip
  normaliza_tamanho txt =
      let t = c.casing.lower (strip txt) in
      elim (lookup t tamanho_map) [ none ↦ c.casing.upper t | some tam ↦ tam ]

  -- etapa 1
  unfoldable pub take_linha : Step
  take_linha texto e w =
      let t = c.casing.lower (strip texto) in
      let d : Dados = e.dados in
      if one_of t ("1" ∷ "monte seu bolo" ∷ "normal" ∷ "tradicional" ∷ "personalizado" ∷ [])
      then choose_line "tradicional" etapa_2 d ask_massa e w
      else if one_of t ("2" ∷ "gourmet" ∷ "ingles" ∷ "redondo" ∷ "p6" ∷ [])
      then choose_line "gourmet" gourmet_tipo d ask_gourmet e w
      else if one_of t ("3" ∷ "mesversario" ∷ "mesversário" ∷ "revelacao" ∷ "revelação" ∷ [])
      then choose_line "mesversario" mesversario (record d { subetapa = some Stages.tamanho })
          ask_mesversario e w
      else if one_of t ("4" ∷ "individual" ∷ "baby cake" ∷ "babycake" ∷ [])
      then choose_line "babycake" babycake d ask_babycake e w
      else if one_of t ("5" ∷ "torta" ∷ "tortas" ∷ [])
      then choose_line "torta" gourmet d ask_torta e w
      else if one_of t ("6" ∷ "simples" ∷ "bolo simples" ∷ [])
      then choose_line "simples" simples d ask_simples e w
      else stays etapa_1 d menu_linhas e w

  -- etapa 2
  unfoldable pub take_massa : Step
  take_massa texto e w =
      let massa = c.casing.lower (strip texto) in
      if one_of massa ("branca" ∷ "chocolate" ∷ "mesclada" ∷ [])
      then stays etapa_3 (record e.dados { massa = some (c.capitalize massa) }) ask_recheio e w
      else stays etapa_2 e.dados wrong_massa e w

  -- etapa 3
  unfoldable pub take_recheio : Step
  unfolding contains
  take_recheio texto e w =
      let limpo = strip texto in
      let d : Dados = e.dados in
      if contains "casadinho" (c.casing.lower limpo)
      then stays etapa_4
          (record d {
            recheio = some "Casadinho (Brigadeiro Branco + Brigadeiro Preto)";
            mousse = some none;
          })
          casadinho_chosen e w
      else elim (split_once b'+' limpo) [
        | none ↦ stays etapa_3 d wrong_recheio e w
        | some (recheio, mousse) ↦
            stays etapa_4
              (record d { recheio = some (strip recheio); mousse = some (some (strip mousse)) })
              ask_tamanho e w
      ]

  unfoldable pub take_gourmet_tipo : Step
  take_gourmet_tipo texto e w =
      let escolha = c.casing.lower (strip texto) in
      if one_of escolha ("1" ∷ "ingles" ∷ "inglês" ∷ [])
      then stays gourmet_ingles (record e.dados { sub_linha = some "ingles" }) ask_ingles e w
      else if one_of escolha ("2" ∷ "redondo" ∷ "p6" ∷ [])
      then stays gourmet_redondo (record e.dados { sub_linha = some "redondo" }) ask_redondo e w
      else stays gourmet_tipo e.dados wrong_gourmet e w

  -- etapa 4
  unfoldable pub take_tamanho : Step
  unfolding normaliza_tamanho
  take_tamanho texto e w =
      stays etapa_5 (record e.dados { tamanho = some (normaliza_tamanho texto) }) ask_adicional e w

  -- etapa 5
  unfoldable pub take_adicional : Step
  unfolding alias_fruta
  take_adicional texto e w =
      let txt = c.casing.lower (strip texto) in
      let d : Dados = e.dados in
      if one_of txt ("valores" ∷ "consultar" ∷ "consultar valores" ∷ "tabela" ∷ [])
      then stays etapa_5 d (additions_table c.money) e w
      else if one_of txt ("" ∷ "nenhum" ∷ "nao" ∷ "não" ∷ [])
      then stays data_entrega (record d { adicional = none }) ask_date e w
      else stays data_entrega (record d { adicional = alias_fruta c.casing (some texto) }) ask_date
          e w

  unfoldable pub take_ingles : Step
  take_ingles texto e w = elim (normaliza_produto c.casing "gourmet" texto) [
    | none ↦ stays gourmet_ingles e.dados wrong_ingles e w
    | some produto ↦ stays gourmet_kit (record e.dados { produto = some produto }) ask_kit e w
  ]

  unfoldable pub take_kit : Step
  take_kit texto e w =
      let resposta = c.casing.lower (strip texto) in
      stays data_entrega
        (record e.dados { kit_festou = one_of resposta ("1" ∷ "sim" ∷ "s" ∷ "yes" ∷ []) }) ask_date
        e w

  -- etapas gourmet and gourmet_redondo
  unfoldable pub take_produto : Etapa → Step
  unfolding suggestions
  take_produto at texto e w = elim (normaliza_produto c.casing (or_text e.linha "") texto) [
    | none ↦
        stays at e.dados
          (join "" (
            "⚠\u{fe0f} Bolo não reconhecido. Tente novamente.\nSugestões: "
            ∷ suggestions e.dados.sub_linha e.linha
            ∷ []))
          e w
    | some produto ↦ stays data_entrega (record e.dados { produto = some produto }) ask_date e w
  ]
