-- ===== src/Flows/GiftBox/Ready.antt =====
-- What the draft of a gift box holds at each `etapa`, and that every answer keeps it so.
use chokobot.Flows.GiftBox.{
  Etapa, Pagamento, Dados, Estado, GiftWorld, Surroundings, or_blank, selecao, data_entrega,
  hora_retirada, modo_recebimento, endereco, confirmar_pedido, pagamento_forma, pagamento_troco,
  finalizar_venda, retirada, entrega,
}
use chokobot.Flows.GiftBox.Payment.{take_payment, take_change, finish}
use chokobot.Flows.GiftBox.Steps.{
  process_cesta_box_flow, select_box, take_date, take_time, take_mode, take_address,
  take_confirmation,
}
use chokobot.Common.{
  ℕ, String, ◌≡◌, Bool, true, false, ◌&&◌, not, Option, none, some, arith, str_eq, is_some, ◌==◌,
}

abbrev is_fee : Option ℕ → Bool
is_fee none = false
is_fee (some fee) = fee == 1000

-- nothing chosen of how to receive and to pay
abbrev is_open : Dados → Bool
is_open d = not (is_some d.modo) && (not (is_some d.taxa_entrega) && not (is_some d.pagamento))

abbrev pub is_dated : Dados → Bool
is_dated d = is_some d.cesta && (is_some d.data_agendada && is_some d.horario)

abbrev pub has_forma : Option Pagamento → Bool
has_forma none = false
has_forma (some p) = is_some p.forma

module _ (c : Surroundings) where
  -- Picked up with no fee, or delivered for the fee, to an address and at a time for deliveries.
  abbrev pub is_received : Dados → Bool
  is_received d = elim d.modo [
    | none ↦ false
    | some retirada ↦ not (is_some d.taxa_entrega)
    | some entrega ↦
        is_fee d.taxa_entrega
        && (not (str_eq (or_blank d.destino) "") && c.horario_entrega_permitido d.horario)
  ]

  abbrev is_delivery : Dados → Bool
  is_delivery d = elim d.modo [
    | some entrega ↦ is_fee d.taxa_entrega && c.horario_entrega_permitido d.horario
    | _ ↦ false
  ]

  unfoldable pub is_ready : Etapa → Dados → Bool
  is_ready selecao d = is_open d
  is_ready data_entrega d = is_open d && is_some d.cesta
  is_ready hora_retirada d = is_open d && (is_some d.cesta && is_some d.data_agendada)
  is_ready modo_recebimento d = is_open d && is_dated d
  is_ready endereco d = is_dated d && (is_delivery d && not (is_some d.pagamento))
  is_ready confirmar_pedido d = is_dated d && (is_received d && not (is_some d.pagamento))
  is_ready pagamento_forma d = is_dated d && (is_received d && is_some d.pagamento)
  is_ready pagamento_troco d = is_dated d && (is_received d && has_forma d.pagamento)
  is_ready finalizar_venda d = is_dated d && (is_received d && has_forma d.pagamento)

  abbrev pub stays_ready : Estado → Bool
  stays_ready e = is_ready e.etapa e.dados

  select_box-ready :
      (t : String) (d : Dados) (w : GiftWorld)
      → is_ready selecao d ≡ true
      → stays_ready (select_box c t d w).1 ≡ true
  unfolding is_ready select_box
  select_box-ready t d w h = ground arith

  take_date-ready :
      (t : String) (d : Dados) (w : GiftWorld)
      → is_ready data_entrega d ≡ true
      → stays_ready (take_date c t d w).1 ≡ true
  unfolding is_ready take_date
  take_date-ready t d w h = ground arith

  take_time-ready :
      (t : String) (d : Dados) (w : GiftWorld)
      → is_ready hora_retirada d ≡ true
      → stays_ready (take_time c t d w).1 ≡ true
  unfolding is_ready take_time
  take_time-ready t d w h = ground arith

  take_mode-ready :
      (t : String) (d : Dados) (w : GiftWorld)
      → is_ready modo_recebimento d ≡ true
      → stays_ready (take_mode c t d w).1 ≡ true
  unfolding is_ready take_mode
  take_mode-ready t d w h = ground arith

  take_address-ready :
      (t : String) (d : Dados) (w : GiftWorld)
      → is_ready endereco d ≡ true
      → stays_ready (take_address c t d w).1 ≡ true
  unfolding is_ready take_address
  take_address-ready t d w h = ground arith

  take_confirmation-ready :
      (t : String) (d : Dados) (w : GiftWorld)
      → is_ready confirmar_pedido d ≡ true
      → stays_ready (take_confirmation c t d w).1 ≡ true
  unfolding is_ready take_confirmation
  take_confirmation-ready t d w h = ground arith

  take_payment-ready :
      (t : String) (d : Dados) (w : GiftWorld)
      → is_ready pagamento_forma d ≡ true
      → stays_ready (take_payment c t d w).1 ≡ true
  unfolding is_ready take_payment finish
  take_payment-ready t d w h = ground arith

  take_change-ready :
      (t : String) (d : Dados) (w : GiftWorld)
      → is_ready pagamento_troco d ≡ true
      → stays_ready (take_change c t d w).1 ≡ true
  unfolding is_ready take_change finish
  take_change-ready t d w h = ground arith

  -- Every answer takes a draft that has what its `etapa` needs to one that has what the next needs.
  pub process_cesta_box_flow-ready :
      (texto : String) (e : Estado) (w : GiftWorld)
      → is_ready e.etapa e.dados ≡ true
      → stays_ready (process_cesta_box_flow c texto e w).1 ≡ true
  unfolding process_cesta_box_flow
  process_cesta_box_flow-ready texto e w h = grind (
    arith, select_box-ready, take_date-ready, take_time-ready, take_mode-ready, take_address-ready,
    take_confirmation-ready, take_payment-ready, take_change-ready,
  )
