-- ===== src/Flows/Cake/ReadyMade.antt =====
-- The steps of pronta entrega of `processar_encomenda` (app/services/encomendas.py): a cake that is ready,
-- which is picked up.
use chokobot.Prices.Totals.{key_error}
use chokobot.Schedule.Calendar.{pos}
use chokobot.Flows.Cake.{CakeOrder, Dados, Surroundings, raises, Step, stays}
use chokobot.Flows.Cake.Stages.{pronta_item, pronta_kit, pronta_data, pronta_hora}
use chokobot.Flows.Cake.Texts.Closing.{
  is_correct, wrong_b3_b4, ask_pronta_kit, ask_pickup_date, wrong_date, ask_time, wrong_time,
}
use chokobot.Flows.Cake.Draft.{totalled}
use chokobot.Flows.Cake.Lines.{normaliza_tamanho}
use chokobot.Flows.Cake.Receiving.{preview_or_raise}
use chokobot.Common.{String, none, some, is_some, [], ◌∷◌, strip, one_of, if◌then◌else◌}

-- the order of a cake that is ready
unfoldable pub pronta_order : String → Dados → CakeOrder
pronta_order tamanho d = record {
  priced = record {
    categoria = some "tradicional";
    tamanho = some (some tamanho);
    fruta_ou_nozes = none;
    pedacos = none;
    produto = none;
    cobertura = none;
    kit_festou = d.kit_festou;
    quantidade = some (pos 1);
  };
  data_entrega = d.data_entrega;
  horario_retirada = d.horario_retirada;
  descricao = some "Mesclado Brigadeiro + Ninho";
  doces_itens = some d.doces_itens;
  doces_total = d.doces_total;
  doces_forminha = none;
  valor_total = none;
  serve_pessoas = none;
}

module _ (c : Surroundings) where
  unfoldable pub take_pronta_item : Step
  unfolding normaliza_tamanho one_of
  take_pronta_item texto e w =
      let tam = normaliza_tamanho c texto in
      if one_of tam ("B3" ∷ "B4" ∷ [])
      then stays pronta_kit (record e.dados { tamanho = some tam }) ask_pronta_kit e w
      else stays pronta_item e.dados wrong_b3_b4 e w

  unfoldable pub take_pronta_kit : Step
  unfolding strip one_of
  take_pronta_kit texto e w =
      let t = c.casing.lower (strip texto) in
      stays pronta_data (record e.dados { kit_festou = one_of t ("1" ∷ "sim" ∷ "s" ∷ "yes" ∷ []) })
        ask_pickup_date e w

  unfoldable pub take_pronta_data : Step
  unfolding strip
  take_pronta_data texto e w =
      if is_some (c.iso_date (strip texto))
      then stays pronta_hora (record e.dados { data_entrega = some (strip texto) }) ask_time e w
      else stays pronta_data e.dados wrong_date e w

  -- The time is kept as the customer writes it. `dados["tamanho"]` and `dados["data_entrega"]` raise
  -- KeyError where they are missing.
  unfoldable pub take_pronta_hora : Step
  take_pronta_hora texto e w = elim (c.parse_hora texto) [
    | none ↦ stays pronta_hora e.dados wrong_time e w
    | some hora ↦
        let d : Dados = record e.dados { horario_retirada = some (strip texto) } in
        elim d.tamanho [
          | none ↦ (raises key_error, record e { dados = d }, w)
          | some tam ↦ elim d.data_entrega [
            | none ↦ (raises key_error, record e { dados = d }, w)
            | some date ↦ preview_or_raise c is_correct (totalled c (pronta_order tam d)) d e w
          ]
        ]
  ]
