-- ===== src/Flows/Cake/Parties.antt =====
-- The steps of `processar_encomenda` (app/services/encomendas.py) on the lines mesversario, babycake and
-- simples.
use chokobot.Prices.Totals.{calcular_preco_simples}
use chokobot.Flows.{unfinished}
use chokobot.Flows.Cake.{Dados, Surroundings, replies, Step, stays, or_none}
use chokobot.Flows.Cake.Stages.{
  tamanho, massa, recheio, mousse, sabor, mesversario, babycake, babycake_frase, simples,
  simples_cobertura, data_entrega,
}
use chokobot.Flows.Cake.Texts.Lines.{ask_mesversario, ask_babycake}
use chokobot.Flows.Cake.Texts.Closing.{
  wrong_p4_p6, ask_party_massa, wrong_party_massa, ask_party_recheio, ask_mousse, ask_party_date,
  wrong_sabor, ask_frase, ask_delivery_date, wrong_simples, ask_cobertura, wrong_cobertura,
  ask_simples_date,
}
use chokobot.Common.{
  ◌*◌, String, Option, none, some, [], ◌∷◌, strip, str_eq, one_of, join, if◌then◌else◌,
}

-- `sabores` and `coberturas`
abbrev pub sabor_of : String → Option String
sabor_of escolha =
    if str_eq escolha "1"
    then some "Chocolate"
    else if str_eq escolha "2"
    then some "Cenoura"
    else none

abbrev pub cobertura_of : String → Option String
cobertura_of escolha =
    if str_eq escolha "1"
    then some "Vulcão"
    else if str_eq escolha "2"
    then some "Simples"
    else none

module _ (c : Surroundings) where
  unfoldable pub take_party_tamanho : Step
  take_party_tamanho texto e w =
      let tam = c.casing.upper (strip texto) in
      let d : Dados = e.dados in
      let big = str_eq tam "P6" in
      if one_of tam ("P4" ∷ "P6" ∷ [])
      then stays mesversario
          (record d {
            tamanho = some tam;
            preco_base = some (if big then 16500 else 12000);
            serve_pessoas = some (if big then 20 else 8);
            subetapa = some massa;
          })
          ask_party_massa e w
      else stays mesversario d wrong_p4_p6 e w

  unfoldable pub take_party_massa : Step
  take_party_massa texto e w =
      let escolha = c.casing.lower (strip texto) in
      let d : Dados = e.dados in
      if one_of escolha ("branca" ∷ "chocolate" ∷ [])
      then stays mesversario
          (record d { massa = some (c.capitalize escolha); subetapa = some recheio })
          ask_party_recheio e w
      else stays mesversario d wrong_party_massa e w

  unfoldable pub take_party_recheio : Step
  take_party_recheio texto e w =
      stays mesversario (record e.dados { recheio = some (strip texto); subetapa = some mousse })
        ask_mousse e w

  unfoldable pub take_mousse : Step
  take_mousse texto e w =
      let swapped = one_of (c.casing.lower (strip texto)) ("sim" ∷ "s" ∷ []) in
      stays data_entrega
        (record e.dados {
          mousse = some (some (if swapped then "Chocolate" else "Ninho"));
          subetapa = none;
        })
        ask_party_date e w

  -- etapa mesversario; no later test of the source is for it
  unfoldable pub take_mesversario : Step
  unfolding take_party_tamanho take_party_massa take_party_recheio take_mousse
  take_mesversario texto e w = elim e.dados.subetapa [
    | none ↦ stays mesversario (record e.dados { subetapa = some tamanho }) ask_mesversario e w
    | some tamanho ↦ take_party_tamanho texto e w
    | some massa ↦ take_party_massa texto e w
    | some recheio ↦ take_party_recheio texto e w
    | some mousse ↦ take_mousse texto e w
    | some sabor ↦ (replies unfinished, e, w)
  ]

  unfoldable pub take_baby_sabor : Step
  take_baby_sabor texto e w =
      let s = strip texto in
      let chosen =
        if str_eq s "1"
        then "Branco com Doce de Leite e Creme Mágico (chocolate branco)"
        else "Branco com Belga e Creme Mágico (chocolate branco)" in
      let d : Dados = e.dados in
      if one_of s ("1" ∷ "2" ∷ [])
      then stays babycake_frase (record d { sabor = some chosen; subetapa = none }) ask_frase e w
      else stays babycake d wrong_sabor e w

  -- etapa babycake: the menu that was sent twice is not answered
  unfoldable pub take_babycake : Step
  unfolding take_baby_sabor
  take_babycake texto e w =
      let menu = one_of texto ("4" ∷ "baby" ∷ "baby cake" ∷ "individual" ∷ "babycake" ∷ []) in
      elim e.dados.subetapa [
        | none ↦
            if menu
            then (replies unfinished, e, w)
            else stays babycake (record e.dados { subetapa = some sabor }) ask_babycake e w
        | some sabor ↦ take_baby_sabor texto e w
        | some _ ↦ (replies unfinished, e, w)
      ]

  unfoldable pub take_frase : Step
  take_frase texto e w =
      let frase = strip texto in
      let without = one_of (c.casing.lower frase) ("" ∷ "não" ∷ "nao" ∷ "sem frase" ∷ []) in
      stays data_entrega (record e.dados { frase = if without then none else some frase })
        ask_delivery_date e w

  unfoldable pub take_simples : Step
  take_simples texto e w = elim (sabor_of (c.casing.lower (strip texto))) [
    | none ↦ stays simples e.dados wrong_simples e w
    | some chosen ↦
        stays simples_cobertura (record e.dados { sabor = some chosen }) ask_cobertura e w
  ]

  unfoldable pub take_cobertura : Step
  unfolding calcular_preco_simples
  take_cobertura texto e w = elim (cobertura_of (c.casing.lower (strip texto))) [
    | none ↦ stays simples_cobertura e.dados wrong_cobertura e w
    | some cobertura ↦
        stays data_entrega
          (record e.dados {
            cobertura = some cobertura;
            valor_total = some (calcular_preco_simples c.casing cobertura * 100);
            serve_pessoas = some 8;
            categoria = some "simples";
            descricao = some (join "" (or_none e.dados.sabor ∷ " com cobertura " ∷ cobertura ∷ []));
            taxa_entrega = some 500;
          })
          ask_simples_date e w
  ]
