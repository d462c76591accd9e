-- ===== src/Flows/GiftBox/Steps.antt =====
-- The steps of `process_cesta_box_flow`, one for each `etapa`, and the whole of it.
use Prim.Native.String.{◌++◌ as ◌<>◌}
use chokobot.Flows.{Outcome, unfinished}
use chokobot.Flows.GiftBox.{
  Dados, Estado, GiftWorld, Surroundings, no_dados, sync_cesta_process, selecao, data_entrega,
  hora_retirada, modo_recebimento, endereco, confirmar_pedido, pagamento_forma, pagamento_troco,
  finalizar_venda, retirada, entrega,
}
use chokobot.Common.{String, none, some, [], ◌∷◌, strip, str_eq, one_of, if◌then◌else◌}
use chokobot.Flows.GiftBox.Texts.{
  catalogue, find_cesta, delivery_too_late, payment_menu, how_to_receive, menu_cestas, resumo,
}
use chokobot.Flows.GiftBox.Payment.{Step, stays, take_payment, take_change}

module _ (c : Surroundings) where
  unfoldable pub select_box : Step
  unfolding find_cesta
  select_box texto d w = elim (find_cesta (c.lower (strip texto)) catalogue) [
    | none ↦ stays selecao d (menu_cestas c) w
    | some b ↦
        let d' : Dados = record d { cesta = some b } in
        stays data_entrega d'
          ("✅ Cesta selecionada: *"
            <> (b.nome
                <> ("*\nR$"
                    <> (c.money b.preco
                        <> "\n\n📆 Informe a *data de retirada/entrega* (DD/MM/AAAA):"))))
          (sync_cesta_process c "coletando_dados" "active" d' none w)
  ]

  unfoldable pub take_date : Step
  take_date texto d w =
      let limpo = strip texto in
      if str_eq limpo ""
      then stays data_entrega d "⚠\u{fe0f} Por favor, informe uma data válida (DD/MM/AAAA)." w
      else if c.valida_data limpo
      then elim (c.validate_service_date limpo) [
        | some problem ↦ stays data_entrega d ("⚠\u{fe0f} " <> problem) w
        | none ↦
            let d' : Dados = record d { data_agendada = some limpo } in
            stays hora_retirada d' "⏰ Informe o *horário de retirada/entrega* (HH:MM ou 24h):"
              (sync_cesta_process c "coletando_dados" "active" d' none w)
      ]
      else stays data_entrega d "⚠\u{fe0f} Data inválida. Digite no formato DD/MM/AAAA." w

  unfoldable pub take_time : Step
  take_time texto d w = elim (c.parse_hora texto) [
    | none ↦
        stays hora_retirada d "⚠\u{fe0f} Horário inválido. Digite no formato HH:MM (ex: 14:30)." w
    | some horario ↦ elim (c.validate_service_schedule d.data_agendada horario) [
      | some problem ↦ stays hora_retirada d ("⚠\u{fe0f} " <> problem) w
      | none ↦
          let d' : Dados = record d { horario = some horario } in
          stays modo_recebimento d' how_to_receive
            (sync_cesta_process c "coletando_dados" "active" d' none w)
    ]
  ]

  unfoldable pub take_mode : Step
  unfolding resumo
  take_mode texto d w =
      let modo = c.lower (strip texto) in
      let picked_up : Dados = record d { modo = some retirada; destino = some "" } in
      let delivered : Dados = record d { modo = some entrega; taxa_entrega = some 1000 } in
      if one_of modo ("1" ∷ "retirada" ∷ [])
      then stays confirmar_pedido picked_up (resumo c picked_up)
          (sync_cesta_process c "aguardando_confirmacao" "active" picked_up none w)
      else if one_of modo ("2" ∷ "entrega" ∷ [])
      then if c.horario_entrega_permitido d.horario
        then stays endereco delivered
            "📍 Qual é o *endereço de entrega*? (logradouro, número, complemento)"
            (sync_cesta_process c "coletando_dados" "active" delivered none w)
        else stays hora_retirada d delivery_too_late w
      else stays modo_recebimento d "⚠\u{fe0f} Digite *1* para retirada ou *2* para entrega." w

  unfoldable pub take_address : Step
  unfolding resumo
  take_address texto d w =
      let d' : Dados = record d { destino = some (strip texto) } in
      if str_eq (strip texto) ""
      then stays endereco d "⚠\u{fe0f} Por favor, informe o endereço." w
      else stays confirmar_pedido d' (resumo c d')
          (sync_cesta_process c "aguardando_confirmacao" "active" d' none w)

  -- A draft that already has a payment is left without an answer.
  unfoldable pub take_confirmation : Step
  take_confirmation texto d w =
      let resposta = c.lower (strip texto) in
      let d' : Dados = record d { pagamento = some (record { forma = none; troco_para = none }) } in
      if one_of resposta ("1" ∷ "sim" ∷ "confirmar" ∷ [])
      then elim d.pagamento [
        | some p ↦ (unfinished, record { etapa = confirmar_pedido; dados = d }, w)
        | none ↦
            stays pagamento_forma d' (payment_menu <> "\n\nDigite *1*, *2* ou *3*.")
              (sync_cesta_process c "pagamento_pendente" "active" d' none w)
      ]
      else if one_of resposta ("2" ∷ "nao" ∷ "não" ∷ "corrigir" ∷ [])
      then stays selecao no_dados ("🔄 Vamos recomeçar...\n\n" <> menu_cestas c) w
      else stays confirmar_pedido d "⚠\u{fe0f} Digite *1* para confirmar ou *2* para corrigir." w

  unfoldable pub process_cesta_box_flow : String → Estado → GiftWorld → Outcome × Estado × GiftWorld
  unfolding select_box take_date take_time take_mode take_address take_confirmation take_payment
      take_change
  process_cesta_box_flow texto e w = elim e.etapa [
    | selecao ↦ select_box texto e.dados w
    | data_entrega ↦ take_date texto e.dados w
    | hora_retirada ↦ take_time texto e.dados w
    | modo_recebimento ↦ take_mode texto e.dados w
    | endereco ↦ take_address texto e.dados w
    | confirmar_pedido ↦ take_confirmation texto e.dados w
    | pagamento_forma ↦ take_payment c texto e.dados w
    | pagamento_troco ↦ take_change c texto e.dados w
    | finalizar_venda ↦ (unfinished, e, w)
  ]
