-- ===== src/Flows/Cake/Ready/Receiving.antt =====
-- That the answers on how a cake is received keep what their steps need, and that an order which is shown
-- has the price of its entries.
use chokobot.Schedule.Calendar.{ℤ, pos}
use chokobot.Prices.Totals.{
  base_price, category_price, price_in, total_of, times, servings, PriceError, Result, fails,
  priced, calcular_total,
}
use chokobot.Prices.Tables.{mesversario}
use chokobot.Flows.Cake.{CakeOrder, Dados, Estado, CakeWorld, Surroundings}
use chokobot.Flows.Cake.Stages.{etapa_6, ajustar_hora_entrega, pronta_hora}
use chokobot.Flows.Cake.Draft.{cake_order, totalled, with_total, update, or_zero}
use chokobot.Flows.Cake.Priced.{repriced, repriced-cake_order, matches, matches-with_total}
use chokobot.Flows.Cake.Receiving.{
  preview, preview_or_raise, pick_up, delivered, start_delivery, iniciar_entrega, pay_or_deliver,
  preview_party, take_receiving, take_new_time, is_party, party_total, party_people,
}
use chokobot.Flows.Cake.Dates.{taxa_of}
use chokobot.Flows.Cake.ReadyMade.{take_pronta_hora, pronta_order}
use chokobot.Flows.Cake.Texts.Closing.{is_correct}
use chokobot.Flows.Cake.Ready.{
  is_ready, stays_ready, is_scheduled, is_right, is_shown, is_unpaid, is_plain, is_party_made,
  has_party_size,
}
use chokobot.Common.{
  Option, false, lookup, Bool-cases, str_eq, eq_iff, ◌⊎◌, inl, inr, ℕ, ◌+◌, String, ◌≡◌, refl, true,
  not, arith, none, some, is_some,
}

party_size : (tam : String) → has_party_size (some tam) ≡ true → (tam ≡ "P4") ⊎ (tam ≡ "P6")
party_size tam h = elim (Bool-cases (str_eq tam "P4")) [
  | inl p ↦ inl ((eq_iff tam "P4").0 p)
  | inr p ↦ inr ((eq_iff tam "P6").0 (ground (arith, p, h)))
]

Result-cases :
    (r : Result CakeOrder)
    → ((problem : PriceError) × (r ≡ fails problem)) ⊎ ((o : CakeOrder) × (r ≡ priced o))
Result-cases (fails problem) = inl (problem, refl)
Result-cases (priced o) = inr (o, refl)

module _ (c : Surroundings) where
  scheduled-with_total :
      (d : Dados) (base o : CakeOrder) (r : Result (ℤ × ℕ))
      → is_scheduled c (update d base) ≡ true
      → with_total base r ≡ priced o
      → is_scheduled c (update d o) ≡ true
  unfolding with_total update
  scheduled-with_total d base o r s h = ground arith

  right-with_total :
      (extra : ℕ) (d : Dados) (base o : CakeOrder)
      → calcular_total c.casing (repriced (update d base)) ≡ calcular_total c.casing base.priced
      → is_scheduled c (update d base) ≡ true
      → totalled c base ≡ priced o
      → is_right c extra
          (record (update d o) { valor_total = some (or_zero o.valor_total + extra) })
        ≡ true
  unfolding is_right totalled update repriced
  right-with_total extra d base o e s h = ground (
    arith,
    scheduled-with_total d base o (calcular_total c.casing base.priced) s h,
    matches-with_total c extra d base o (calcular_total c.casing base.priced) e h,
  )

  shown-totalled :
      (d : Dados) (base o : CakeOrder)
      → calcular_total c.casing (repriced (update d base)) ≡ calcular_total c.casing base.priced
      → is_scheduled c (update d base) ≡ true
      → totalled c base ≡ priced o
      → is_shown c (record d { pedido_preview = some o }) ≡ true
  unfolding is_shown is_right totalled update repriced
  shown-totalled d base o e s h = ground (
    arith,
    scheduled-with_total d base o (calcular_total c.casing base.priced) s h,
    matches-with_total c 0 d base o (calcular_total c.casing base.priced) e h,
  )

  -- An order is shown with its price, or its price raises an exception, which leaves the step as it is.
  preview_or_raise-ready :
      (question : String) (base : CakeOrder) (d : Dados) (e : Estado) (w : CakeWorld)
      → calcular_total c.casing (repriced (update d base)) ≡ calcular_total c.casing base.priced
      → is_scheduled c (update d base) ≡ true
      → is_unpaid d ≡ true
      → is_ready c e.etapa d ≡ true
      → stays_ready c (preview_or_raise c question (totalled c base) d e w).1 ≡ true
  unfolding is_ready preview_or_raise preview
  preview_or_raise-ready question base d e w p s u h = elim (Result-cases (totalled c base)) [
    | inl (problem, f) ↦ rw f h
    | inr (o, f) ↦ rw f (ground (arith, u, shown-totalled d base o p s f))
  ]

  pick_up-ready :
      (e : Estado) (w : CakeWorld)
      → is_scheduled c e.dados ≡ true
      → is_unpaid e.dados ≡ true
      → is_ready c e.etapa (record e.dados { taxa_entrega = some 0 }) ≡ true
      → stays_ready c (pick_up c e w).1 ≡ true
  unfolding pick_up update cake_order
  pick_up-ready e w s u h =
      let d : Dados = record e.dados { taxa_entrega = some 0 } in
      preview_or_raise-ready _ (cake_order c d) d e w (repriced-cake_order c d) s u h

  repriced-pronta_order :
      (tam : String) (d : Dados)
      → calcular_total c.casing (repriced (update d (pronta_order tam d)))
        ≡ calcular_total c.casing (pronta_order tam d).priced
  unfolding repriced update pronta_order calcular_total base_price category_price
  repriced-pronta_order tam d = refl

  pronta_preview-ready :
      (tam : String) (d : Dados) (e : Estado) (w : CakeWorld)
      → e.etapa ≡ pronta_hora
      → is_plain d ≡ true
      → is_scheduled c d ≡ true
      → stays_ready c (preview_or_raise c is_correct (totalled c (pronta_order tam d)) d e w).1
        ≡ true
  unfolding update pronta_order is_ready
  pronta_preview-ready tam d e w at p s =
      preview_or_raise-ready is_correct (pronta_order tam d) d e w (repriced-pronta_order tam d) s
        (ground (arith, p)) (rw at (ground (arith, p, s)))

  pub take_pronta_hora-ready :
      (texto : String) (e : Estado) (w : CakeWorld)
      → e.etapa ≡ pronta_hora
      → is_ready c pronta_hora e.dados ≡ true
      → stays_ready c (take_pronta_hora c texto e w).1 ≡ true
  unfolding take_pronta_hora is_ready
  take_pronta_hora-ready texto e w at h = grind (arith, at, pronta_preview-ready)

  -- the price by hand of an order for a party is the one of the table
  party_matches :
      (size : Option String) (fruta produto : Option String)
      → has_party_size size ≡ true
      → matches (party_total size) (some (party_people size)) 0 (
          calcular_total c.casing (record {
            categoria = some "mesversario";
            tamanho = some size;
            fruta_ou_nozes = fruta;
            pedacos = none;
            produto = some produto;
            cobertura = none;
            kit_festou = false;
            quantidade = some (pos 1);
          }))
        ≡ true
  unfolding matches calcular_total base_price category_price price_in total_of times servings
      mesversario lookup
  party_matches (some tam) fruta produto h = elim (party_size tam h) [
    | inl p ↦ rw p refl
    | inr p ↦ rw p refl
  ]
  party_matches none fruta produto h = ground arith

  preview_party-ready :
      (e : Estado) (w : CakeWorld)
      → is_scheduled c e.dados ≡ true
      → is_unpaid e.dados ≡ true
      → is_party e.dados.linha ≡ true
      → is_party_made e.dados ≡ true
      → stays_ready c (preview_party c e w).1 ≡ true
  unfolding is_ready is_shown is_right preview_party preview update repriced
  preview_party-ready e w s u p m =
      ground
        (arith, s, u, p, m, party_matches e.dados.tamanho e.dados.fruta_ou_nozes e.dados.produto)

  -- A delivery leaves a draft without an order that is shown, and the price of it includes the fee.
  pub iniciar_entrega-due :
      (e : Estado) (w : CakeWorld)
      → is_some e.dados.pagamento ≡ true
      → not (is_some e.dados.pedido_preview) ≡ true
      → e.dados.pos_pagamento ≡ false
      → let e' = (iniciar_entrega c e w).1 in
        (is_some e'.dados.pedido_preview ≡ false)
        × ((e'.dados.pagamento ≡ e.dados.pagamento)
            × ((e'.dados.pos_pagamento ≡ false) × (e'.etapa ≡ e.etapa)))
  unfolding iniciar_entrega start_delivery delivered update
  iniciar_entrega-due e w p s q = ground arith

  pub take_new_time-ready :
      (texto : String) (e : Estado) (w : CakeWorld)
      → e.etapa ≡ ajustar_hora_entrega
      → is_ready c ajustar_hora_entrega e.dados ≡ true
      → stays_ready c (take_new_time c texto e w).1 ≡ true
  unfolding take_new_time pay_or_deliver is_ready
  take_new_time-ready texto e w at h = grind (arith, at, pick_up-ready)

  pub take_receiving-ready :
      (texto : String) (e : Estado) (w : CakeWorld)
      → e.etapa ≡ etapa_6
      → is_ready c etapa_6 e.dados ≡ true
      → stays_ready c (take_receiving c texto e w).1 ≡ true
  unfolding take_receiving pay_or_deliver is_ready
  take_receiving-ready texto e w at h = grind (arith, at, pick_up-ready, preview_party-ready)

  horario-with_total :
      (base o : CakeOrder) (r : Result (ℤ × ℕ))
      → with_total base r ≡ priced o
      → o.horario_retirada ≡ base.horario_retirada
  unfolding with_total
  horario-with_total base o r h = ground arith

  -- The draft of a delivery has the price of its entries and the fee, at the time of the draft.
  pub right-delivered :
      (d : Dados) (o : CakeOrder)
      → is_scheduled c d ≡ true
      → totalled c (cake_order c d) ≡ priced o
      → (is_right c (taxa_of d.taxa_entrega) (delivered d o) ≡ true)
        × ((delivered d o).horario_retirada ≡ d.horario_retirada)
  unfolding delivered update cake_order is_right totalled repriced
  right-delivered d o s h = (
    right-with_total (taxa_of d.taxa_entrega) d (cake_order c d) o (repriced-cake_order c d) s h,
    horario-with_total (cake_order c d) o _ h,
  )
