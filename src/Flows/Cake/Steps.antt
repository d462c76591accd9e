-- ===== src/Flows/Cake/Steps.antt =====
-- `processar_encomenda` (app/services/encomendas.py), put together from its steps.
use chokobot.Flows.Cake.{Surroundings, Step}
use chokobot.Flows.Cake.Stages.{
  etapa_1, etapa_2, etapa_3, etapa_4, etapa_5, etapa_6, gourmet_tipo, gourmet_ingles, gourmet_kit,
  gourmet, gourmet_redondo, mesversario, babycake, babycake_frase, simples, simples_cobertura,
  data_entrega, hora_retirada, doces_oferta, doces_captura, doces_tipo_forminha, doces_forminha,
  ajustar_hora_entrega, pronta_item, pronta_kit, pronta_data, pronta_hora, confirmar_pedido,
  pagamento_forma, pagamento_troco,
}
use chokobot.Flows.Cake.Lines.{
  take_linha, take_massa, take_recheio, take_tamanho, take_adicional, take_gourmet_tipo,
  take_ingles, take_kit, take_produto,
}
use chokobot.Flows.Cake.Parties.{
  take_mesversario, take_babycake, take_frase, take_simples, take_cobertura,
}
use chokobot.Flows.Cake.Dates.{
  take_date, take_time, take_offer, take_doces, take_tipo, take_forminha,
}
use chokobot.Flows.Cake.Receiving.{take_receiving, take_new_time}
use chokobot.Flows.Cake.ReadyMade.{
  take_pronta_item, take_pronta_kit, take_pronta_data, take_pronta_hora,
}
use chokobot.Flows.Cake.Closing.{take_confirmation, take_payment, take_change}

module _ (c : Surroundings) where
  unfoldable pub processar_encomenda : Step
  processar_encomenda texto e w = elim e.etapa [
    | etapa_1 ↦ take_linha c texto e w
    | etapa_2 ↦ take_massa c texto e w
    | etapa_3 ↦ take_recheio c texto e w
    | etapa_4 ↦ take_tamanho c texto e w
    | etapa_5 ↦ take_adicional c texto e w
    | etapa_6 ↦ take_receiving c texto e w
    | gourmet_tipo ↦ take_gourmet_tipo c texto e w
    | gourmet_ingles ↦ take_ingles c texto e w
    | gourmet_kit ↦ take_kit c texto e w
    | gourmet ↦ take_produto c gourmet texto e w
    | gourmet_redondo ↦ take_produto c gourmet_redondo texto e w
    | mesversario ↦ take_mesversario c texto e w
    | babycake ↦ take_babycake c texto e w
    | babycake_frase ↦ take_frase c texto e w
    | simples ↦ take_simples c texto e w
    | simples_cobertura ↦ take_cobertura c texto e w
    | data_entrega ↦ take_date c texto e w
    | hora_retirada ↦ take_time c texto e w
    | doces_oferta ↦ take_offer c texto e w
    | doces_captura ↦ take_doces c texto e w
    | doces_tipo_forminha ↦ take_tipo c texto e w
    | doces_forminha ↦ take_forminha c texto e w
    | ajustar_hora_entrega ↦ take_new_time c texto e w
    | pronta_item ↦ take_pronta_item c texto e w
    | pronta_kit ↦ take_pronta_kit c texto e w
    | pronta_data ↦ take_pronta_data c texto e w
    | pronta_hora ↦ take_pronta_hora c texto e w
    | confirmar_pedido ↦ take_confirmation c texto e w
    | pagamento_forma ↦ take_payment c texto e w
    | pagamento_troco ↦ take_change c texto e w
  ]
