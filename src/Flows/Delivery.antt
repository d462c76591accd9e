-- ===== src/Flows/Delivery.antt =====
-- `ProcessDeliveryFlow.execute` (app/application/use_cases/process_delivery_flow.py): the address, a
-- reference, and the confirmation of an order that is delivered.
mod Draft
pub mod Ordering
pub mod Tracking
pub use Draft.*
use Prim.Native.String.{◌++◌ as ◌<>◌}
use chokobot.Processes.{Upsert, upsert_process}
use chokobot.Flows.{FlowWorld, Outcome, unfinished, finalizar, tell, order}
use chokobot.Common.{
  ℕ, String, Bool, true, false, ◌&&◌, not, Option, none, some, List, [], ◌∷◌, strip, str_eq, one_of,
  ltb, ◌==◌, if◌then◌else◌,
}

module _ (c : Surroundings) (telefone : String) where
  abbrev pub delivery_upsert : Estado → String → String → Pedido → Option ℕ → Upsert Pedido
  delivery_upsert e stage status pedido order_id = record {
    phone = telefone;
    customer_id = e.cliente_id;
    process_type = "delivery_order";
    stage = stage;
    status = status;
    source = some "legacy_delivery";
    draft_payload = pedido;
    order_id = order_id;
  }

  unfoldable pub save_process :
      Estado → String → String → Pedido → Option ℕ → DeliveryWorld → DeliveryWorld
  save_process e stage status pedido order_id w = record w {
    processes = upsert_process (delivery_upsert e stage status pedido order_id) c.now w.processes;
  }

  unfoldable pub payment_info : Option Payment → String
  unfolding amount_or
  payment_info none = "💳 Pagamento não informado"
  payment_info (some p) = elim p.forma [
    | none ↦ "💳 Pagamento não informado"
    | some forma ↦
        if str_eq forma ""
        then "💳 Pagamento não informado"
        else if str_eq (c.lower forma) "dinheiro" && ltb 0 (amount_or 0 p.troco_para)
        then "💵 " <> (forma <> (" — troco para R$" <> c.money (amount_or 0 p.troco_para)))
        else "💳 " <> forma
  ]

  -- `pedido.get("pagamento") or dados.get("pagamento")`
  abbrev payment_of : Estado → Pedido → Option Payment
  payment_of e p = elim p.pagamento [ none ↦ e.pagamento | some x ↦ some x ]

  -- The summary is left out where it cannot be made.
  unfoldable pub summarise : Estado → Pedido → DeliveryWorld → DeliveryWorld
  unfolding payment_info amount_or
  summarise e pedido w = elim (c.montar_resumo pedido (amount_or 0 pedido.valor_total)) [
    | none ↦ w
    | some resumo ↦
        tell
          (payment_info (payment_of e pedido)
            <> ("\n\n💲 *Obs: já inclui a taxa de entrega de R$ "
                <> (c.money (amount_or 1000 pedido.taxa_entrega) <> ".*")))
          (tell resumo w)
  ]

  unfoldable pub take_address : String → Estado → DeliveryWorld → Outcome × Estado × DeliveryWorld
  take_address texto e w = (
    unfinished,
    record e { etapa = pedir_referencia; endereco = some (strip texto) },
    tell ask_reference w,
  )

  -- The draft in `dados` is the same object, unless there was none.
  unfoldable pub take_reference : String → Estado → DeliveryWorld → Outcome × Estado × DeliveryWorld
  unfolding save_process summarise
  take_reference texto e w =
      let pedido : Pedido = record (or_empty e.pedido) {
        endereco = some (text_or_empty e.endereco);
        referencia = some (strip texto);
      } in
      let stored : Option Pedido = elim e.pedido [ none ↦ none | some p ↦ some pedido ] in
      (
        unfinished,
        record e { etapa = confirmar_entrega; referencia = some (strip texto); pedido = stored },
        tell ask_confirmation
            (save_process e "aguardando_confirmacao" "active" pedido none (summarise e pedido w)),
      )

  unfoldable pub entrega_of : Estado → Entrega
  entrega_of e =
      let base = text_or_empty e.endereco in
      let ref = text_or_empty e.referencia in
      record {
        pedido = record (or_empty e.pedido) {
          endereco = some base;
          referencia = some ref;
          modo_recebimento = some "entrega";
        };
        nome_cliente = e.nome;
        cliente_id = e.cliente_id;
        endereco = if str_eq ref "" then base else base <> (" | Ref: " <> ref);
        data_agendada = e.data_agendada;
      }

  -- With `create_order_bundle` the gateway writes the delivery and the process as well.
  unfoldable pub confirm : Estado → DeliveryWorld → Outcome × Estado × DeliveryWorld
  unfolding save_process entrega_of
  confirm e w =
      let entrega = entrega_of e in
      let id = c.create_order entrega in
      let asked = order entrega w in
      if id == 0
      then (unfinished, e, tell could_not_confirm asked)
      else if c.has_bundle
      then (finalizar, e, tell confirmed asked)
      else (
        finalizar,
        e,
        tell confirmed
            (save_process e "pedido_confirmado" "converted" entrega.pedido (some id) asked),
      )

  unfoldable pub answer_confirmation :
      String → Estado → DeliveryWorld → Outcome × Estado × DeliveryWorld
  unfolding confirm save_process
  answer_confirmation texto e w =
      if one_of (c.lower (strip texto)) confirm_options
      then confirm e w
      else if one_of (c.lower (strip texto)) correct_options
      then (
        unfinished,
        record e { etapa = pedir_endereco },
        tell ask_address_again
            (save_process e "coletando_endereco" "active" (or_empty e.pedido) none w),
      )
      else (unfinished, e, tell choose_option w)

  unfoldable pub execute : String → Estado → DeliveryWorld → Outcome × Estado × DeliveryWorld
  unfolding take_address take_reference answer_confirmation
  execute texto e w = elim e.etapa [
    | pedir_endereco ↦ take_address texto e w
    | pedir_referencia ↦ take_reference texto e w
    | confirmar_entrega ↦ answer_confirmation texto e w
    | desconhecida ↦ (unfinished, e, w)
  ]
