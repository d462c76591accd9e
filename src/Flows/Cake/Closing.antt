-- ===== src/Flows/Cake/Closing.antt =====
-- The confirmation of a pickup and the payment, the last steps of `processar_encomenda`
-- (app/services/encomendas.py).
use chokobot.Prices.Totals.{key_error}
use chokobot.Flows.{unfinished, finalizar, tell, order}
use chokobot.Flows.Delivery.{Payment}
use chokobot.Flows.Cake.{
  Estado, Saved, CakeWorld, Surroundings, Reply, replies, raises, Step, stays, no_dados,
  order_requested, pickup_created,
}
use chokobot.Flows.Cake.Stages.{etapa_1, confirmar_pedido, pagamento_forma, pagamento_troco}
use chokobot.Flows.Cake.Texts.Closing.{
  msg_escolher_forma, msg_pedir_troco, nothing_to_confirm, could_not_confirm, confirmed,
  start_again, menu_again, confirm_or_correct, confirm_question, wrong_amount,
}
use chokobot.Flows.Cake.Draft.{update, prepara_dados_para_salvar}
use chokobot.Flows.Cake.Receiving.{iniciar_entrega}
use chokobot.Common.{
  ℕ, ◌==◌, String, Bool, false, Option, none, some, [], ◌∷◌, strip, str_eq, one_of, join,
  if◌then◌else◌,
}

-- FORMAS_PAGAMENTO (app/services/estados.py)
unfoldable pub formas_pagamento : String → Option String
formas_pagamento escolha =
    if str_eq escolha "1"
    then some "PIX"
    else if str_eq escolha "2"
    then some "Cartão (débito/crédito)"
    else if str_eq escolha "3"
    then some "Dinheiro"
    else none

abbrev pub confirm_words : String → Bool
confirm_words opc = one_of opc (
    "1" ∷ "confirmar" ∷ "ok" ∷ "c" ∷ "sim" ∷ "s" ∷ "confirmar pedido" ∷ "pedido confirmado"
    ∷ "confirmo" ∷ [])

module _ (c : Surroundings) where
  unfoldable pub msg_resumo_pagamento : String → Option ℕ → String
  msg_resumo_pagamento forma troco =
      let base = join "" ("💳 Pagamento: *" ∷ forma ∷ "*" ∷ []) in
      elim troco [
        | none ↦ base
        | some valor ↦
            if str_eq forma "Dinheiro"
            then join "" (base ∷ " — troco para *R$" ∷ c.money valor ∷ "*" ∷ [])
            else base
      ]

  -- A gateway with `create_order_bundle` creates the pickup as well.
  unfoldable pub save_order : Saved → Estado → CakeWorld → Reply × Estado × CakeWorld
  save_order s e w =
      let id = c.create_order s in
      let asked = order (order_requested s) w in
      if id == 0 then (replies unfinished, e, tell could_not_confirm asked) else (
        replies finalizar,
        e,
        tell confirmed
            (if c.has_bundle then asked else order (pickup_created id s.data_entrega) asked),
      )

  -- The draft keeps what the order changes in it, also where the gateway refuses the order.
  unfoldable pub confirm : Estado → CakeWorld → Reply × Estado × CakeWorld
  confirm e w = elim e.dados.pedido_preview [
    | none ↦ stays etapa_1 no_dados nothing_to_confirm e w
    | some o ↦
        let d = update e.dados o in
        save_order (prepara_dados_para_salvar c d) (record e { dados = d }) w
  ]

  -- Without a payment, any answer leads to the payment first.
  unfoldable pub take_confirmation : Step
  take_confirmation texto e w =
      let opc = c.casing.lower (strip texto) in
      elim e.dados.pagamento [
        | none ↦
            stays pagamento_forma
              (record e.dados { pagamento = some (record { forma = none; troco_para = none }) })
              msg_escolher_forma e w
        | some p ↦
            if confirm_words opc
            then confirm e w
            else if one_of opc ("2" ∷ "corrigir" ∷ "ajustar" ∷ "editar" ∷ [])
            then stays etapa_1 no_dados menu_again e (tell start_again w)
            else stays confirmar_pedido e.dados confirm_or_correct e w
      ]

  -- What follows the payment: the flow of a delivery, or the confirmation of a pickup.
  unfoldable pub after_payment : String → Option ℕ → Estado → CakeWorld → Reply × Estado × CakeWorld
  after_payment forma troco e w =
      let paid =
        tell (join "" ("✅ Pagamento registrado!\n" ∷ msg_resumo_pagamento forma troco ∷ [])) w in
      if e.dados.pos_pagamento
      then iniciar_entrega c (record e { dados = record e.dados { pos_pagamento = false } }) paid
      else stays confirmar_pedido e.dados confirm_question e paid

  -- `dados["pagamento"]` raises KeyError where it is missing.
  unfoldable pub take_payment : Step
  take_payment texto e w = elim (formas_pagamento (strip texto)) [
    | none ↦
        stays pagamento_forma e.dados (join "" ("Não entendi.\n" ∷ msg_escolher_forma ∷ [])) e w
    | some forma ↦ elim e.dados.pagamento [
      | none ↦ (raises key_error, e, w)
      | some p ↦
          if str_eq forma "Dinheiro"
          then stays pagamento_troco
              (record e.dados {
                pagamento = some (record { forma = some forma; troco_para = p.troco_para });
              })
              msg_pedir_troco e w
          else after_payment forma (some 0)
              (record e {
                dados = record e.dados {
                  pagamento = some (record { forma = some forma; troco_para = none });
                };
              })
              w
    ]
  ]

  unfoldable pub take_change : Step
  take_change texto e w =
      let again = stays pagamento_troco e.dados wrong_amount e w in
      elim (c.read_amount (strip texto)) [
        | none ↦ again
        | some troco ↦
            let paid : Payment → Payment = λ p. record p { troco_para = some troco } in
            if troco == 0 then again else elim e.dados.pagamento [
              | none ↦ (raises key_error, e, w)
              | some p ↦
                  after_payment "Dinheiro" (some troco)
                    (record e { dados = record e.dados { pagamento = some (paid p) } }) w
            ]
      ]
