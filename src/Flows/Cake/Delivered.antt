-- ===== src/Flows/Cake/Delivered.antt =====
-- A delivery of a cake, from its draft to the order: `_iniciar_entrega` (app/services/encomendas.py) and
-- the flow of deliveries that goes on from it.
use chokobot.Flows.{finalizar}
use chokobot.Flows.Delivery
use chokobot.Flows.Delivery.{Entrega, DeliveryWorld, Payment}
use chokobot.Flows.Delivery.Ordering.{AreOther, confirms, ordered_for, run, run-ordered_for}
use chokobot.Flows.Cake.{Saved, Surroundings}
use chokobot.Flows.Cake.Receiving.{delivery_estado}
use chokobot.Common.{
  ℕ, String, ◌≡◌, refl, false, true, Option, some, List, [], ◌∷◌, ◌++◌, map, strip, ap, ◌==◌,
}

-- what an order of a delivery asks of the customer: the total and the fee, the payment, and the date
abbrev pub terms : Entrega → Option ℕ × Option ℕ × Option Payment × Option String
terms o = (o.pedido.valor_total, o.pedido.taxa_entrega, o.pedido.pagamento, o.data_agendada)

abbrev pub saved_terms : Saved → Option ℕ × Option ℕ × Option Payment × Option String
saved_terms s = (
  some s.valor_total,
  some s.taxa_entrega,
  some (record { forma = some s.forma_pagamento; troco_para = s.troco_para }),
  s.data_entrega,
)

module _ (c : Surroundings) (flow : Delivery.Surroundings) where
  -- From the draft that the cake flow hands on: the customer gives an address and a reference, answers
  -- anything that neither confirms nor asks for a correction, and confirms. Where the gateway takes the
  -- order, the flow of deliveries ends with one order more, with the total, the fee, the payment and the
  -- date that the cake flow has saved.
  pub run-delivery_estado :
      (s : Saved) (address reference : String) (others : List String) (last : String)
      (w : DeliveryWorld)
      → AreOther flow c.telefone others
      → confirms flow c.telefone last ≡ true
      → (flow.create_order
            (ordered_for flow c.telefone (strip address) (strip reference) (delivery_estado c s))
          == 0)
        ≡ false
      → let (outcome, _, w') =
          run flow c.telefone (address ∷ reference ∷ others ++ last ∷ []) (delivery_estado c s) w in
        (outcome ≡ finalizar) × (map terms w'.orders ≡ saved_terms s ∷ map terms w.orders)
  unfolding delivery_estado
  run-delivery_estado s address reference others last w h said taken =
      let (ends, ordered) =
        run-ordered_for flow c.telefone address reference others last (delivery_estado c s) w refl h
          said taken in
      (ends, ap (map terms) ordered)
