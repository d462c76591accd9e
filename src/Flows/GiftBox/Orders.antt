-- ===== src/Flows/GiftBox/Orders.antt =====
-- Which orders of gift boxes reach the gateway, along any conversation.
use mathlib.Core.Path.{subst}
use chokobot.Flows.{Outcome, unfinished, is_finished}
use chokobot.Flows.GiftBox.{
  Dados, Estado, GiftOrder, GiftWorld, Surroundings, or_blank, preco_of, valor_total,
  build_cesta_process_payload, sync_cesta_process, finalizar_venda, retirada, entrega,
}
use chokobot.Flows.GiftBox.Payment.{
  take_payment, take_change, finish, salvar_pedido_cesta, gift_order,
}
use chokobot.Flows.GiftBox.Steps.{
  process_cesta_box_flow, select_box, take_date, take_time, take_mode, take_address,
  take_confirmation,
}
use chokobot.Flows.GiftBox.Ready.{is_ready, has_forma, process_cesta_box_flow-ready}
use chokobot.Common.{
  ◌+◌, String, ◌≡◌, Bool, true, false, ◌&&◌, not, Option, none, some, List, [], ◌∷◌, arith, str_eq,
  is_some, ◌==◌, Bool-cases, inl, inr, if◌then◌else◌,
}

-- a delivery with an address
abbrev is_addressed : Option (Option String) → Bool
is_addressed none = false
is_addressed (some address) = not (str_eq (or_blank address) "")

module _ (c : Surroundings) where
  -- A box, a date, a time, a form of payment; picked up for the price of the box, or delivered to an
  -- address at a time for deliveries, for ten more.
  unfoldable pub is_complete : GiftOrder → Bool
  is_complete o =
      (is_some o.payload.cesta && (is_some o.payload.data_agendada && is_some o.payload.horario))
      && (has_forma o.payload.pagamento && elim o.payload.modo [
        | none ↦ false
        | some retirada ↦
            o.payload.valor_total == preco_of o.payload.cesta && not (is_some o.delivery)
        | some entrega ↦
            o.payload.valor_total == preco_of o.payload.cesta + 1000
            && (is_addressed o.delivery && c.horario_entrega_permitido o.payload.horario)
      ])

  unfoldable pub all_complete : List GiftOrder → Bool
  all_complete [] = true
  all_complete (o ∷ os) = is_complete o && all_complete os

  gift_order_complete :
      (d : Dados) → is_ready c finalizar_venda d ≡ true → is_complete (gift_order c d) ≡ true
  unfolding is_ready is_complete gift_order build_cesta_process_payload valor_total
  gift_order_complete d h = ground arith

  -- An order reaches the gateway exactly when the flow ends, and it is the order of the draft.
  orders-process_cesta_box_flow :
      (texto : String) (e : Estado) (w : GiftWorld)
      → let (outcome, e', w') = process_cesta_box_flow c texto e w in
        w'.orders ≡ (if is_finished outcome then gift_order c e'.dados ∷ w.orders else w.orders)
  unfolding process_cesta_box_flow select_box take_date take_time take_mode take_address
      take_confirmation take_payment take_change finish salvar_pedido_cesta sync_cesta_process
  orders-process_cesta_box_flow texto e w = ground arith

  ready-finished :
      (texto : String) (e : Estado) (w : GiftWorld)
      → is_finished (process_cesta_box_flow c texto e w).0 ≡ true
      → (process_cesta_box_flow c texto e w).1.etapa ≡ finalizar_venda
  unfolding process_cesta_box_flow select_box take_date take_time take_mode take_address
      take_confirmation take_payment take_change finish
  ready-finished texto e w h = ground arith

  -- The answers of a customer in turn, until the flow ends.
  unfoldable pub run : List String → Estado → GiftWorld → Outcome × Estado × GiftWorld
  run [] e w = (unfinished, e, w)
  run (texto ∷ textos) e w =
      let (outcome, e', w') = process_cesta_box_flow c texto e w in
      let rest = run textos e' w' in if is_finished outcome then (outcome, e', w') else rest

  step_complete :
      (texto : String) (e : Estado) (w : GiftWorld)
      → is_ready c e.etapa e.dados ≡ true
      → all_complete w.orders ≡ true
      → all_complete (process_cesta_box_flow c texto e w).2.orders ≡ true
  unfolding all_complete
  step_complete texto e w h before =
      let (outcome, e', w') = process_cesta_box_flow c texto e w in
      let kept = process_cesta_box_flow-ready c texto e w h in
      rw (orders-process_cesta_box_flow texto e w) (elim (Bool-cases (is_finished outcome)) [
        | inl over ↦
            let at = ready-finished texto e w over in
            rw over (
              ground (
                arith,
                before,
                gift_order_complete e'.dados (subst (λ k. is_ready c k e'.dados ≡ true) at kept),
              ))
        | inr on ↦ rw on before
      ])

  -- Along any conversation that begins with a draft that has what its `etapa` needs (as a new one at
  -- `selecao` has) and with complete orders so far, every order that has reached the gateway is
  -- complete: a box, a date, a time, a form of payment, and either no delivery for the price of the
  -- box, or a delivery to an address, at a time that deliveries allow, for the price and the fee. The
  -- draft has what its `etapa` needs then.
  pub run_complete :
      (textos : List String) (e : Estado) (w : GiftWorld)
      → is_ready c e.etapa e.dados ≡ true
      → all_complete w.orders ≡ true
      → let (_, e', w') = run textos e w in
        (all_complete w'.orders ≡ true) × (is_ready c e'.etapa e'.dados ≡ true)
  unfolding run
  run_complete [] e w h before = (before, h)
  run_complete (texto ∷ textos) e w h before =
      let (outcome, e', w') = process_cesta_box_flow c texto e w in
      let kept = process_cesta_box_flow-ready c texto e w h in
      let complete = step_complete texto e w h before in
      elim (Bool-cases (is_finished outcome)) [
        | inl over ↦ rw over (complete, kept)
        | inr on ↦ rw on (run_complete textos e' w' kept complete)
      ]
