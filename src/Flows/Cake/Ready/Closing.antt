-- ===== src/Flows/Cake/Ready/Closing.antt =====
-- That the confirmation and the payment keep what their steps need, and so does any answer.
use chokobot.Flows.Delivery.{Payment}
use chokobot.Flows.Cake.{CakeOrder, Dados, Estado, CakeWorld, Surroundings}
use chokobot.Flows.Cake.Stages.{Etapa, confirmar_pedido, pagamento_forma, pagamento_troco}
use chokobot.Flows.Cake.Draft.{update, or_zero}
use chokobot.Flows.Cake.Closing.{
  take_confirmation, take_payment, take_change, after_payment, confirm, save_order,
  formas_pagamento,
}
use chokobot.Flows.Cake.Steps.{processar_encomenda}
use chokobot.Flows.Cake.Ready.{
  is_ready, stays_ready, is_dated, is_due, is_shown, is_right, has_forma, is_forma, kept-update,
  is_scheduled,
}
use chokobot.Flows.Cake.Ready.Making.{
  take_linha-ready, take_massa-ready, take_recheio-ready, take_tamanho-ready, take_adicional-ready,
  take_gourmet_tipo-ready, take_ingles-ready, take_kit-ready, take_produto-gourmet,
  take_produto-gourmet_redondo, take_mesversario-ready, take_babycake-ready, take_frase-ready,
  take_simples-ready, take_cobertura-ready, take_date-ready, take_time-ready, take_offer-ready,
  take_doces-ready, take_tipo-ready, take_forminha-ready, take_pronta_item-ready,
  take_pronta_kit-ready, take_pronta_data-ready,
}
use chokobot.Flows.Cake.Ready.Receiving.{
  iniciar_entrega-due, take_new_time-ready, take_receiving-ready, take_pronta_hora-ready,
}
use mathlib.Core.Path.{subst}
use chokobot.Flows.Cake.Priced.{repriced, matches}
use chokobot.Prices.Totals.{calcular_total}
use chokobot.Common.{ap, ◌&&◌, Bool, ℕ, String, ◌≡◌, refl, true, false, Option, none, some, arith}

abbrev is_forma_if_any : Option String → Bool
is_forma_if_any none = true
is_forma_if_any (some forma) = is_forma forma

is_forma-formas_pagamento : (t : String) → is_forma_if_any (formas_pagamento t) ≡ true
unfolding formas_pagamento
is_forma-formas_pagamento t = ground arith

pub formas_pagamento-is_forma :
    (t forma : String) → formas_pagamento t ≡ some forma → is_forma forma ≡ true
formas_pagamento-is_forma t forma h =
    subst (λ o. is_forma_if_any o ≡ true) h (is_forma-formas_pagamento t)

-- The same order changes a draft once.
repriced-update_again :
    (d : Dados) (o : CakeOrder) → repriced (update (update d o) o) ≡ repriced (update d o)
unfolding repriced update
repriced-update_again d o = ground arith

abbrev is_paying : Etapa → Bool
is_paying pagamento_forma = true
is_paying pagamento_troco = true
is_paying _ = false

module _ (c : Surroundings) where
  after_payment-ready :
      (forma : String) (troco : Option ℕ) (e : Estado) (w : CakeWorld)
      → is_paying e.etapa ≡ true
      → has_forma e.dados.pagamento ≡ true
      → is_due c e.dados ≡ true
      → stays_ready c (after_payment c forma troco e w).1 ≡ true
  unfolding after_payment is_ready is_shown
  after_payment-ready forma troco e w at f due = grind (arith, iniciar_entrega-due)

  pub shown-paid :
      (d : Dados) (p : Option Payment) → is_shown c (record d { pagamento = p }) ≡ is_shown c d
  unfolding is_shown is_right update repriced
  shown-paid d p = refl

  take_payment-ready :
      (texto : String) (e : Estado) (w : CakeWorld)
      → e.etapa ≡ pagamento_forma
      → is_ready c pagamento_forma e.dados ≡ true
      → stays_ready c (take_payment c texto e w).1 ≡ true
  unfolding take_payment is_ready
  take_payment-ready texto e w at h =
      grind (arith, at, formas_pagamento-is_forma, shown-paid, after_payment-ready)

  take_change-ready :
      (texto : String) (e : Estado) (w : CakeWorld)
      → e.etapa ≡ pagamento_troco
      → is_ready c pagamento_troco e.dados ≡ true
      → stays_ready c (take_change c texto e w).1 ≡ true
  unfolding take_change is_ready
  take_change-ready texto e w at h = grind (arith, at, shown-paid, after_payment-ready)

  right-update_again :
      (d : Dados) (o : CakeOrder) → is_right c 0 (update (update d o) o) ≡ is_right c 0 (update d o)
  unfolding is_right update
  right-update_again d o =
      ap
        (λ p.
          is_scheduled c (update d o)
          && matches (or_zero o.valor_total) o.serve_pessoas 0 (calcular_total c.casing p))
        (repriced-update_again d o)

  confirm-ready :
      (e : Estado) (w : CakeWorld)
      → e.etapa ≡ confirmar_pedido
      → is_ready c confirmar_pedido e.dados ≡ true
      → stays_ready c (confirm c e w).1 ≡ true
  unfolding confirm save_order is_ready is_shown
  confirm-ready e w at h = grind (arith, at, right-update_again, kept-update)

  take_confirmation-ready :
      (texto : String) (e : Estado) (w : CakeWorld)
      → e.etapa ≡ confirmar_pedido
      → is_ready c confirmar_pedido e.dados ≡ true
      → stays_ready c (take_confirmation c texto e w).1 ≡ true
  unfolding take_confirmation is_ready
  take_confirmation-ready texto e w at h = grind (arith, at, shown-paid, confirm-ready)

  -- Every answer takes a draft that has what its step needs to one that has what the next step needs,
  -- where the date of tomorrow is a date.
  pub processar_encomenda-ready :
      (texto : String) (e : Estado) (w : CakeWorld)
      → is_dated c (some c.tomorrow) ≡ true
      → stays_ready c e ≡ true
      → stays_ready c (processar_encomenda c texto e w).1 ≡ true
  unfolding processar_encomenda
  processar_encomenda-ready texto e w later h = grind (
    arith, take_linha-ready, take_massa-ready, take_recheio-ready, take_tamanho-ready,
    take_adicional-ready, take_gourmet_tipo-ready, take_ingles-ready, take_kit-ready,
    take_produto-gourmet, take_produto-gourmet_redondo, take_mesversario-ready, take_babycake-ready,
    take_frase-ready, take_simples-ready, take_cobertura-ready, take_date-ready, take_time-ready,
    take_offer-ready, take_doces-ready, take_tipo-ready, take_forminha-ready,
    take_pronta_item-ready, take_pronta_kit-ready, take_pronta_data-ready, take_pronta_hora-ready,
    take_receiving-ready, take_new_time-ready, take_confirmation-ready, take_payment-ready,
    take_change-ready,
  )
