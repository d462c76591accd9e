-- ===== src/Flows/Cake/Silent.antt =====
-- That the steps of a cake before the payment (app/services/encomendas.py) hand nothing on.
use chokobot.Flows.Cake.{Estado, CakeWorld, Surroundings}
use chokobot.Flows.Cake.Stages.{Etapa, confirmar_pedido, pagamento_forma, pagamento_troco}
use chokobot.Flows.Cake.Steps.{processar_encomenda}
use chokobot.Flows.Cake.Ready.{is_ready, stays_ready}
use chokobot.Flows.Cake.Lines.{
  take_linha, take_massa, take_recheio, take_tamanho, take_adicional, take_gourmet_tipo,
  take_ingles, take_kit, take_produto,
}
use chokobot.Flows.Cake.Parties.{
  take_mesversario, take_party_tamanho, take_party_massa, take_party_recheio, take_mousse,
  take_babycake, take_baby_sabor, take_frase, take_simples, take_cobertura,
}
use chokobot.Flows.Cake.Dates.{
  take_date, take_time, take_offer, take_doces, take_tipo, take_forminha,
}
use chokobot.Flows.Cake.ReadyMade.{
  take_pronta_item, take_pronta_kit, take_pronta_data, take_pronta_hora,
}
use chokobot.Flows.Cake.Receiving.{
  take_receiving, take_new_time, pick_up, pay_or_deliver, preview_party, preview, preview_or_raise,
}
use chokobot.Prices.Totals.{Result}
use chokobot.Flows.Cake.{CakeOrder, Dados}
use chokobot.Common.{Bool, true, false, String, ◌≡◌, none, arith}

-- the steps that hand something on
abbrev pub is_closing : Etapa → Bool
is_closing confirmar_pedido = true
is_closing pagamento_forma = true
is_closing pagamento_troco = true
is_closing _ = false

module _ (c : Surroundings) (texto : String) (e : Estado) (w : CakeWorld) where
  orders-preview_or_raise :
      (question : String) (r : Result CakeOrder) (d : Dados)
      → (preview_or_raise c question r d e w).2.orders ≡ w.orders
  unfolding preview_or_raise preview
  orders-preview_or_raise question r d = ground arith

  orders-take_linha : (take_linha c texto e w).2.orders ≡ w.orders
  unfolding take_linha
  orders-take_linha = ground arith

  orders-take_massa : (take_massa c texto e w).2.orders ≡ w.orders
  unfolding take_massa
  orders-take_massa = ground arith

  orders-take_recheio : (take_recheio c texto e w).2.orders ≡ w.orders
  unfolding take_recheio
  orders-take_recheio = ground arith

  orders-take_tamanho : (take_tamanho c texto e w).2.orders ≡ w.orders
  unfolding take_tamanho
  orders-take_tamanho = ground arith

  orders-take_adicional : (take_adicional c texto e w).2.orders ≡ w.orders
  unfolding take_adicional
  orders-take_adicional = ground arith

  orders-take_gourmet_tipo : (take_gourmet_tipo c texto e w).2.orders ≡ w.orders
  unfolding take_gourmet_tipo
  orders-take_gourmet_tipo = ground arith

  orders-take_ingles : (take_ingles c texto e w).2.orders ≡ w.orders
  unfolding take_ingles
  orders-take_ingles = ground arith

  orders-take_kit : (take_kit c texto e w).2.orders ≡ w.orders
  unfolding take_kit
  orders-take_kit = ground arith

  orders-take_produto : (at : Etapa) → (take_produto c at texto e w).2.orders ≡ w.orders
  unfolding take_produto
  orders-take_produto at = ground arith

  orders-take_mesversario : (take_mesversario c texto e w).2.orders ≡ w.orders
  unfolding take_mesversario take_party_tamanho take_party_massa take_party_recheio take_mousse
  orders-take_mesversario = ground arith

  orders-take_babycake : (take_babycake c texto e w).2.orders ≡ w.orders
  unfolding take_babycake take_baby_sabor
  orders-take_babycake = ground arith

  orders-take_frase : (take_frase c texto e w).2.orders ≡ w.orders
  unfolding take_frase
  orders-take_frase = ground arith

  orders-take_simples : (take_simples c texto e w).2.orders ≡ w.orders
  unfolding take_simples
  orders-take_simples = ground arith

  orders-take_cobertura : (take_cobertura c texto e w).2.orders ≡ w.orders
  unfolding take_cobertura
  orders-take_cobertura = ground arith

  orders-take_date : (take_date c texto e w).2.orders ≡ w.orders
  unfolding take_date
  orders-take_date = ground arith

  orders-take_time : (take_time c texto e w).2.orders ≡ w.orders
  unfolding take_time
  orders-take_time = ground arith

  orders-take_offer : (take_offer c texto e w).2.orders ≡ w.orders
  unfolding take_offer
  orders-take_offer = ground arith

  orders-take_doces : (take_doces c texto e w).2.orders ≡ w.orders
  unfolding take_doces
  orders-take_doces = ground arith

  orders-take_tipo : (take_tipo c texto e w).2.orders ≡ w.orders
  unfolding take_tipo
  orders-take_tipo = ground arith

  orders-take_forminha : (take_forminha c texto e w).2.orders ≡ w.orders
  unfolding take_forminha
  orders-take_forminha = ground arith

  orders-take_pronta_item : (take_pronta_item c texto e w).2.orders ≡ w.orders
  unfolding take_pronta_item
  orders-take_pronta_item = ground arith

  orders-take_pronta_kit : (take_pronta_kit c texto e w).2.orders ≡ w.orders
  unfolding take_pronta_kit
  orders-take_pronta_kit = ground arith

  orders-take_pronta_data : (take_pronta_data c texto e w).2.orders ≡ w.orders
  unfolding take_pronta_data
  orders-take_pronta_data = ground arith

  orders-take_pronta_hora : (take_pronta_hora c texto e w).2.orders ≡ w.orders
  unfolding take_pronta_hora
  orders-take_pronta_hora = grind (arith, orders-preview_or_raise)

  orders-take_new_time : e.dados.pagamento ≡ none → (take_new_time c texto e w).2.orders ≡ w.orders
  unfolding take_new_time pick_up pay_or_deliver
  orders-take_new_time p = grind (arith, orders-preview_or_raise)

  orders-take_receiving :
      e.dados.pagamento ≡ none → (take_receiving c texto e w).2.orders ≡ w.orders
  unfolding take_receiving pick_up pay_or_deliver preview_party preview
  orders-take_receiving p = grind (arith, orders-preview_or_raise)

  -- Before the payment, no answer hands an order or a delivery on.
  pub orders-processar_encomenda :
      is_closing e.etapa ≡ false
      → stays_ready c e ≡ true
      → (processar_encomenda c texto e w).2.orders ≡ w.orders
  unfolding processar_encomenda is_ready
  orders-processar_encomenda at h = grind (
    arith, orders-take_linha, orders-take_massa, orders-take_recheio, orders-take_tamanho,
    orders-take_adicional, orders-take_gourmet_tipo, orders-take_ingles, orders-take_kit,
    orders-take_produto, orders-take_mesversario, orders-take_babycake, orders-take_frase,
    orders-take_simples, orders-take_cobertura, orders-take_date, orders-take_time,
    orders-take_offer, orders-take_doces, orders-take_tipo, orders-take_forminha,
    orders-take_pronta_item, orders-take_pronta_kit, orders-take_pronta_data,
    orders-take_pronta_hora, orders-take_new_time, orders-take_receiving,
  )
