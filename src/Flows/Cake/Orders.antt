-- ===== src/Flows/Cake/Orders.antt =====
-- Which orders of cakes the flow hands on, along any conversation.
use chokobot.Prices.Totals.{calcular_total}
use chokobot.Flows.{finalizar, unfinished}
use chokobot.Flows.Cake.{
  Estado, Saved, Request, CakeWorld, Surroundings, Reply, replies, order_requested, pickup_created,
  delivery_started,
}
use chokobot.Flows.Delivery
use chokobot.Flows.Cake.Priced.{repriced, matches}
use chokobot.Flows.Cake.Steps.{processar_encomenda}
use chokobot.Flows.Cake.Ready.{is_forma}
use chokobot.Common.{
  if◌then◌else◌, ℕ, String, Bool, true, false, ◌&&◌, not, Option, none, some, List, [], ◌∷◌, str_eq,
  is_some, ◌==◌,
}

module _ (c : Surroundings) where
  -- the date of a saved order, written as YYYY-MM-DD
  abbrev is_iso : Option String → Option String → Bool
  is_iso none saved = false
  is_iso (some date) saved = elim (c.iso_date date) [
    | none ↦ false
    | some iso ↦ elim saved [ none ↦ false | some t ↦ str_eq t iso ]
  ]

  -- A date of the calendar, saved in the form of the table, a time, a form of payment, and the price of
  -- the saved entries, with something added.
  unfoldable pub is_sound : ℕ → Saved → Bool
  is_sound extra s =
      (is_iso s.dados.data_entrega s.data_entrega && is_some s.dados.horario_retirada)
      && (is_forma s.forma_pagamento
          && matches s.valor_total s.dados.serve_pessoas extra
              (calcular_total c.casing (repriced s.dados)))

  -- A pickup is a sound order for the price of its entries. A delivery is one with the fee added, at a
  -- time that deliveries allow, and the flow of deliveries begins with it.
  unfoldable pub is_complete : Request → Bool
  is_complete (order_requested s) = is_sound 0 s
  is_complete (pickup_created id date) = not (id == 0)
  is_complete (delivery_started s estado) =
      is_sound s.taxa_entrega s && c.horario_entrega_permitido s.dados.horario_retirada

  unfoldable pub all_complete : List Request → Bool
  all_complete [] = true
  all_complete (o ∷ os) = is_complete o && all_complete os

  -- whether the flow has ended
  abbrev is_over : Reply → Bool
  is_over (replies finalizar) = true
  is_over _ = false

  -- The answers of a customer in turn, until the flow ends. An exception leaves the conversation as it is
  -- by then, and the next answer goes on from there.
  unfoldable pub run : List String → Estado → CakeWorld → Reply × Estado × CakeWorld
  run [] e w = (replies unfinished, e, w)
  run (texto ∷ textos) e w =
      let (reply, e', w') = processar_encomenda c texto e w in
      let rest = run textos e' w' in if is_over reply then (reply, e', w') else rest
