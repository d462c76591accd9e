-- ===== src/Flows/Cake/Receiving.antt =====
-- How a cake is received: the steps 6, ajustar_hora_entrega and the ones of pronta entrega of
-- `processar_encomenda`, and `_iniciar_entrega` (app/services/encomendas.py).
use chokobot.Processes.{Upsert, upsert_process}
use chokobot.Prices.Totals.{Result, fails, priced}
use chokobot.Schedule.Calendar.{pos}
use chokobot.Flows.{unfinished, tell, order}
use chokobot.Flows.Delivery
use chokobot.Flows.Cake.{
  CakeOrder, Dados, Estado, Saved, CakeWorld, Surroundings, Reply, replies, raises, Step, stays,
  delivery_started, or_blank,
}
use chokobot.Flows.Cake.Stages.{etapa_6, ajustar_hora_entrega, confirmar_pedido, pagamento_forma}
use chokobot.Flows.Cake.Texts.Lines.{ask_address}
use chokobot.Flows.Cake.Texts.Closing.{is_correct_or_not, is_correct, msg_escolher_forma}
use chokobot.Flows.Cake.Draft.{cake_order, totalled, update, prepara_dados_para_salvar, or_zero}
use chokobot.Flows.Cake.Dates.{taxa_of}
use chokobot.Flows.Cake.Summary.{montar_resumo}
use chokobot.Common.{
  ℕ, ◌+◌, String, Bool, true, false, Option, none, some, [], ◌∷◌, strip, str_eq, one_of, join,
  if◌then◌else◌,
}

abbrev pub pickup_words : String → Bool
pickup_words t = one_of t ("1" ∷ "retirada" ∷ "retirar" ∷ "loja" ∷ "r" ∷ [])

-- The draft of a delivery: what the order and the fee change in it.
unfoldable pub delivered : Dados → CakeOrder → Dados
unfolding update
delivered d o =
    let taxa = taxa_of d.taxa_entrega in
    record (update d o) {
      valor_total = some (or_zero o.valor_total + taxa);
      taxa_entrega = some taxa;
      modo_recebimento = some "entrega";
      endereco = some (or_blank d.endereco);
      referencia = some (or_blank d.referencia);
    }

abbrev pub is_party : Option String → Bool
is_party none = false
is_party (some linha) = str_eq linha "mesversario"

-- the price and the people served of an order for a party: P6 or any other size
abbrev pub is_big : Option String → Bool
is_big none = false
is_big (some tam) = str_eq tam "P6"

abbrev pub party_total : Option String → ℕ
party_total size = if is_big size then 16500 else 12000

abbrev pub party_people : Option String → ℕ
party_people size = if is_big size then 20 else 8

module _ (c : Surroundings) where
  -- The order is shown, and its draft is kept for the confirmation.
  unfoldable pub preview :
      String → CakeOrder → Dados → Estado → CakeWorld → Reply × Estado × CakeWorld
  preview question o d e w =
      stays confirmar_pedido (record d { pedido_preview = some o }) question
        (record e { modo_recebimento = some "retirada" })
        (tell (montar_resumo c o (or_zero o.valor_total)) w)

  -- `calcular_total` may raise an exception: the draft is then left as it is by then.
  unfoldable pub preview_or_raise :
      String → Result CakeOrder → Dados → Estado → CakeWorld → Reply × Estado × CakeWorld
  preview_or_raise question (fails problem) d e w = (raises problem, record e { dados = d }, w)
  preview_or_raise question (priced o) d e w = preview question o d e w

  -- the answer that the cake is picked up, at step 6 and at ajustar_hora_entrega
  unfoldable pub pick_up : Estado → CakeWorld → Reply × Estado × CakeWorld
  pick_up e w =
      let d : Dados = record e.dados { taxa_entrega = some 0 } in
      preview_or_raise is_correct (totalled c (cake_order c d)) d e w

  unfoldable pub delivery_estado : Saved → Delivery.Estado
  delivery_estado s = record {
    etapa = Delivery.pedir_endereco;
    endereco = some "";
    referencia = some "";
    pedido = some (record {
      endereco = s.dados.endereco;
      referencia = s.dados.referencia;
      modo_recebimento = s.dados.modo_recebimento;
      pagamento = some (record { forma = some s.forma_pagamento; troco_para = s.troco_para });
      taxa_entrega = some s.taxa_entrega;
      valor_total = some s.valor_total;
      produto = s.dados.produto;
    });
    pagamento = none;
    data_agendada = s.data_entrega;
    nome = c.nome_cliente;
    cliente_id = some c.cliente_id;
  }

  abbrev delivery_upsert : Saved → Upsert Saved
  delivery_upsert s = record {
    phone = c.telefone;
    customer_id = some c.cliente_id;
    process_type = "delivery_order";
    stage = "coletando_endereco";
    status = "active";
    source = some "legacy_delivery";
    draft_payload = s;
    order_id = none;
  }

  unfoldable pub start_delivery : Result CakeOrder → Estado → CakeWorld → Reply × Estado × CakeWorld
  start_delivery (fails problem) e w = (raises problem, e, w)
  start_delivery (priced o) e w =
      let d = delivered e.dados o in
      let saved = prepara_dados_para_salvar c d in
      (
        replies unfinished,
        record e { dados = d },
        tell ask_address (
            order (delivery_started saved (delivery_estado saved))
              (record w { processes = upsert_process (delivery_upsert saved) c.now w.processes })),
      )

  -- `_iniciar_entrega`
  unfoldable pub iniciar_entrega : Estado → CakeWorld → Reply × Estado × CakeWorld
  iniciar_entrega e w =
      let limite = c.limite_horario_entrega in
      if c.horario_entrega_permitido e.dados.horario_retirada
      then start_delivery (totalled c (cake_order c e.dados)) e w
      else (
        replies unfinished,
        e,
        tell
            (join "" (
              "🚚 As entregas são realizadas até as *" ∷ limite ∷ "*.\nInforme um horário até *"
              ∷ limite ∷ "* ou escolha *retirada na loja*." ∷ []))
            w,
      )

  -- A delivery is paid for before its address is asked.
  unfoldable pub pay_or_deliver : Estado → CakeWorld → Reply × Estado × CakeWorld
  pay_or_deliver e w = elim e.dados.pagamento [
    | some p ↦ iniciar_entrega e w
    | none ↦
        stays pagamento_forma
          (record e.dados {
            pagamento = some (record { forma = none; troco_para = none });
            pos_pagamento = true;
          })
          msg_escolher_forma e w
  ]

  -- etapa 6 of an order for a party, whatever the answer is
  unfoldable pub preview_party : Estado → CakeWorld → Reply × Estado × CakeWorld
  preview_party e w =
      let d : Dados = e.dados in
      let o : CakeOrder = record {
        priced = record {
          categoria = some "mesversario";
          tamanho = some d.tamanho;
          fruta_ou_nozes = none;
          pedacos = none;
          produto = none;
          cobertura = none;
          kit_festou = false;
          quantidade = some (pos 1);
        };
        data_entrega = d.data_entrega;
        horario_retirada = d.horario_retirada;
        descricao = none;
        doces_itens = none;
        doces_total = 0;
        doces_forminha = none;
        valor_total = some (party_total d.tamanho);
        serve_pessoas = some (party_people d.tamanho);
      } in
      preview is_correct_or_not o d e w

  unfoldable pub take_receiving : Step
  take_receiving texto e w =
      let t = c.casing.lower (strip texto) in
      let d : Dados = e.dados in
      let limite = c.limite_horario_entrega in
      if is_party d.linha
      then preview_party e w
      else if pickup_words t
      then pick_up e w
      else if one_of t ("2" ∷ "entregar" ∷ "entrega" ∷ "receber" ∷ "e" ∷ [])
      then if c.horario_entrega_permitido d.horario_retirada
        then pay_or_deliver e w
        else stays ajustar_hora_entrega d
            (join "" (
              "🚚 As entregas são realizadas até as *" ∷ limite ∷ "*.\nInforme um novo horário até *"
              ∷ limite ∷ "* ou digite *retirada*." ∷ []))
            e w
      else stays etapa_6 d
          (join "" (
            "Por favor, escolha:\n1\u{fe0f}⃣ Retirar na loja\n2\u{fe0f}⃣ Receber em casa (taxa de entrega: R$ "
            ∷ c.money (taxa_of d.taxa_entrega)
            ∷ ")"
            ∷ []))
          e w

  unfoldable pub take_new_time : Step
  take_new_time texto e w =
      let t = c.casing.lower (strip texto) in
      let again =
        stays ajustar_hora_entrega e.dados
          (join "" (
            "⚠\u{fe0f} Para entrega, informe um horário válido até *" ∷ c.limite_horario_entrega
            ∷ "* ou digite *retirada*." ∷ []))
          e w in
      if pickup_words t then pick_up e w else elim (c.parse_hora texto) [
        | none ↦ again
        | some hora ↦
            if c.horario_entrega_permitido (some hora)
            then pay_or_deliver
                (record e {
                  etapa = etapa_6;
                  dados = record e.dados { horario_retirada = some hora };
                })
                w
            else again
      ]
