-- ===== src/Flows/Cake/Ready.antt =====
-- What the draft of a cake holds at each step of `processar_encomenda` (app/services/encomendas.py).
pub mod Making
pub mod Receiving
pub mod Closing
use chokobot.Prices.Totals.{calcular_total}
use chokobot.Flows.Delivery.{Payment}
use chokobot.Flows.Cake.{CakeOrder, Dados, Estado, Surroundings}
use chokobot.Flows.Cake.Stages.{
  Etapa, Subetapa, tamanho, massa, recheio, mousse, sabor, etapa_1, etapa_6, mesversario,
  data_entrega, hora_retirada, doces_oferta, doces_captura, doces_tipo_forminha, doces_forminha,
  ajustar_hora_entrega, pronta_hora, confirmar_pedido, pagamento_forma, pagamento_troco,
}
use chokobot.Flows.Cake.Draft.{or_zero, update}
use chokobot.Flows.Cake.Receiving.{is_party}
use chokobot.Flows.Cake.Priced.{repriced, matches}
use chokobot.Common.{
  ◌≡◌, refl, ℕ, String, Bool, true, false, not, ◌&&◌, ◌||◌, Option, none, some, is_some, str_eq,
  if◌then◌else◌,
}

-- nothing is chosen of the payment, and no order is shown
abbrev pub is_unpaid : Dados → Bool
is_unpaid d = not (is_some d.pagamento) && (not d.pos_pagamento && not (is_some d.pedido_preview))

abbrev pub is_plain : Dados → Bool
is_plain d = not (is_party d.linha) && is_unpaid d

-- an order for a party has one of its two sizes and no kit
abbrev pub has_party_size : Option String → Bool
has_party_size none = false
has_party_size (some tam) = str_eq tam "P4" || str_eq tam "P6"

abbrev pub is_party_made : Dados → Bool
is_party_made d = not (is_party d.linha) || (has_party_size d.tamanho && not d.kit_festou)

-- one of the forms of payment
abbrev pub is_forma : String → Bool
is_forma f = str_eq f "PIX" || (str_eq f "Cartão (débito/crédito)" || str_eq f "Dinheiro")

abbrev pub has_forma : Option Payment → Bool
has_forma none = false
has_forma (some p) = elim p.forma [ none ↦ false | some f ↦ is_forma f ]

abbrev needs_size : Option Subetapa → Bool
needs_size (some massa) = true
needs_size (some recheio) = true
needs_size (some mousse) = true
needs_size _ = false

-- An order changes nothing of the payment.
pub kept-update :
    (d : Dados) (o : CakeOrder)
    → ((update d o).pagamento ≡ d.pagamento)
      × (((update d o).pos_pagamento ≡ d.pos_pagamento)
          × ((update d o).pedido_preview ≡ d.pedido_preview))
unfolding update
kept-update d o = (refl, (refl, refl))

module _ (c : Surroundings) where
  -- a date of the calendar
  abbrev pub is_dated : Option String → Bool
  is_dated none = false
  is_dated (some t) = is_some (c.iso_date t)

  abbrev pub is_scheduled : Dados → Bool
  is_scheduled d = is_dated d.data_entrega && is_some d.horario_retirada

  -- a date, a time, and the price of the entries, with something added
  unfoldable pub is_right : ℕ → Dados → Bool
  is_right extra d =
      is_scheduled d
      && matches (or_zero d.valor_total) d.serve_pessoas extra
          (calcular_total c.casing (repriced d))

  -- the order that is shown, if there is one
  unfoldable pub is_shown : Dados → Bool
  is_shown d = elim d.pedido_preview [ none ↦ true | some o ↦ is_right 0 (update d o) ]

  -- what a payment is for: a delivery, or the order that is shown
  abbrev pub is_due : Dados → Bool
  is_due d =
      if d.pos_pagamento
      then not (is_some d.pedido_preview)
        && (is_scheduled d && c.horario_entrega_permitido d.horario_retirada)
      else is_shown d

  unfoldable pub is_ready : Etapa → Dados → Bool
  is_ready etapa_1 d = is_unpaid d && not d.kit_festou
  is_ready mesversario d =
      is_unpaid d
      && ((is_party d.linha && not d.kit_festou)
          && (not (needs_size d.subetapa) || has_party_size d.tamanho))
  is_ready data_entrega d = is_unpaid d && is_party_made d
  is_ready hora_retirada d = is_unpaid d && (is_party_made d && is_dated d.data_entrega)
  is_ready doces_oferta d = is_unpaid d && (is_party_made d && is_scheduled d)
  is_ready doces_captura d = is_unpaid d && (is_party_made d && is_scheduled d)
  is_ready doces_tipo_forminha d = is_unpaid d && (is_party_made d && is_scheduled d)
  is_ready doces_forminha d = is_unpaid d && (is_party_made d && is_scheduled d)
  is_ready etapa_6 d = is_unpaid d && (is_party_made d && is_scheduled d)
  is_ready ajustar_hora_entrega d = is_plain d && is_scheduled d
  is_ready pronta_hora d = is_plain d && is_dated d.data_entrega
  is_ready confirmar_pedido d =
      not d.pos_pagamento && (is_shown d && (not (is_some d.pagamento) || has_forma d.pagamento))
  is_ready pagamento_forma d = is_some d.pagamento && is_due d
  is_ready pagamento_troco d = has_forma d.pagamento && is_due d
  is_ready _ d = is_plain d

  abbrev pub stays_ready : Estado → Bool
  stays_ready e = is_ready e.etapa e.dados
