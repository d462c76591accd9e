-- ===== src/Flows/Cake/Endings.antt =====
-- Which drafts of a cake can be picked up at all, and how the confirmation of one ends.
use chokobot.Prices.Totals.{Result, fails, priced}
use chokobot.Prices.Drafts.Computed.{has_price, is_priced, is_priced-calcular_total}
use chokobot.Flows.{finalizar}
use chokobot.Flows.Delivery.{Payment}
use chokobot.Flows.Cake.Texts.Closing.{is_correct}
use chokobot.Flows.Cake.{
  Saved, CakeOrder, Dados, Estado, CakeWorld, Surroundings, Reply, replies, raises, order_requested,
}
use chokobot.Flows.Cake.Stages.{etapa_6, confirmar_pedido}
use chokobot.Flows.Cake.Draft.{
  cake_order, totalled, with_total, priced_part, prepara_dados_para_salvar, update,
}
use chokobot.Flows.Cake.Receiving.{
  pick_up, take_receiving, preview_or_raise, preview, pickup_words, is_party,
}
use chokobot.Flows.Cake.Closing.{
  take_confirmation, take_payment, after_payment, confirm, save_order, formas_pagamento,
}
use chokobot.Flows.Cake.Orders.{run}
use chokobot.Flows.Cake.Steps.{processar_encomenda}
use chokobot.Common.{
  refl, some, [], ◌∷◌, ◌==◌, none, one_of, Option, String, ◌≡◌, Bool, true, false, not, ◌∙◌, arith,
  strip, if◌then◌else◌,
}

abbrev pub is_raised : Reply → Bool
is_raised (raises problem) = true
is_raised (replies outcome) = false

module _ (c : Surroundings) where
  is_priced-totalled : (o : CakeOrder) (r : Result _) → is_priced (with_total o r) ≡ is_priced r
  unfolding with_total is_priced
  is_priced-totalled o r = ground arith

  has_price-totalled :
      (d : Dados) → is_priced (totalled c (cake_order c d)) ≡ has_price c.casing (priced_part d)
  unfolding totalled cake_order
  has_price-totalled d =
      is_priced-totalled (cake_order c d) _ ∙ is_priced-calcular_total c.casing (priced_part d)

  ends-preview_or_raise :
      (question : String) (r : Result CakeOrder) (d : Dados) (e : Estado) (w : CakeWorld)
      → let (reply, e', w') = preview_or_raise c question r d e w in
        (is_raised reply ≡ not (is_priced r))
        × (e'.etapa ≡ (if is_priced r then confirmar_pedido else e.etapa))
  unfolding preview_or_raise preview is_priced
  ends-preview_or_raise question (fails problem) d e w = (refl, refl)
  ends-preview_or_raise question (priced o) d e w = (refl, refl)

  ends-pick_up :
      (e : Estado) (w : CakeWorld)
      → let (reply, e', w') = pick_up c e w in
        let ok = has_price c.casing (priced_part e.dados) in
        (is_raised reply ≡ not ok) × (e'.etapa ≡ (if ok then confirmar_pedido else e.etapa))
  unfolding pick_up priced_part
  ends-pick_up e w =
      let d : Dados = record e.dados { taxa_entrega = some 0 } in
      rw⁻¹ (has_price-totalled d)
        (ends-preview_or_raise is_correct (totalled c (cake_order c d)) d e w)

  -- A cake that is to be picked up is shown for its confirmation exactly when its draft has a price: a
  -- size of the table, or a product of the table of its line. Any other draft ends in an exception, and
  -- stays at step 6. This is for the lines that are not for parties.
  pub processar_encomenda-has_price :
      (texto : String) (e : Estado) (w : CakeWorld)
      → e.etapa ≡ etapa_6
      → is_party e.dados.linha ≡ false
      → pickup_words (c.casing.lower (strip texto)) ≡ true
      → let (reply, e', w') = processar_encomenda c texto e w in
        let ok = has_price c.casing (priced_part e.dados) in
        (is_raised reply ≡ not ok) × (e'.etapa ≡ (if ok then confirmar_pedido else etapa_6))
  unfolding processar_encomenda take_receiving
  processar_encomenda-has_price texto e w at plain words =
      grind (arith, at, plain, words, ends-pick_up)

  -- a draft of a pickup that is shown, with a payment
  abbrev shown_draft : Dados → CakeOrder → Option Payment → Dados
  shown_draft d o p = record d { pedido_preview = some o; pagamento = p; pos_pagamento = false }

  abbrev confirming : Estado → CakeOrder → Estado
  confirming e o = record e { etapa = confirmar_pedido; dados = shown_draft e.dados o none }

  -- what is saved of it once it is paid for by PIX
  abbrev pub saved_by_pix : Estado → CakeOrder → Saved
  saved_by_pix e o =
      let p : Payment = record { forma = some "PIX"; troco_para = none } in
      prepara_dados_para_salvar c (update (shown_draft e.dados o (some p)) o)

  -- Once a pickup is shown and not yet paid for, any answer, then the choice of PIX, then the
  -- confirmation end the flow, if the gateway takes the order. The gateway is asked once, for the order
  -- that was shown. The gateway is one that creates the pickup as well.
  pub run-finishes :
      (texto : String) (e : Estado) (w : CakeWorld) (o : CakeOrder)
      → c.casing.lower "1" ≡ "1"
      → (c.create_order (saved_by_pix e o) == 0) ≡ false
      → c.has_bundle ≡ true
      → let (reply, e', w') = run c (texto ∷ "1" ∷ "1" ∷ []) (confirming e o) w in
        (reply ≡ replies finalizar) × (w'.orders ≡ order_requested (saved_by_pix e o) ∷ w.orders)
  unfolding run processar_encomenda take_confirmation take_payment after_payment confirm
      formas_pagamento strip save_order one_of
  run-finishes texto e w o low taken bundle = rw (low, taken, bundle) (refl, refl)
