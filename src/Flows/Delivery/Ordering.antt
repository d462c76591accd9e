-- ===== src/Flows/Delivery/Ordering.antt =====
-- When the delivery flow orders, and what it orders.
use Prim.Native.String.{◌++◌ as ◌<>◌}
use mathlib.Core.Path.{subst}
use chokobot.Flows
use chokobot.Flows.{FlowWorld, Outcome, unfinished, finalizar, voltar_menu, is_finished}
use chokobot.Flows.Delivery
use chokobot.Flows.Delivery.{
  Estado, Etapa, Entrega, Surroundings, DeliveryWorld, Pedido, execute, take_address,
  take_reference, answer_confirmation, confirm, entrega_of, save_process, summarise,
  confirm_options, correct_options, or_empty, pedir_endereco, pedir_referencia, confirmar_entrega,
  desconhecida,
}
use chokobot.Common.{
  String, ◌≡◌, refl, sym, ap, ◌∙◌, Bool, true, false, ◌&&◌, not, some, List, [], ◌∷◌, ◌++◌, arith,
  strip, str_eq, one_of, ◌==◌, if◌then◌else◌,
}

-- whether the customer is asked to confirm, and whether the answer does
abbrev pub asks_confirmation : Etapa → Bool
asks_confirmation confirmar_entrega = true
asks_confirmation _ = false

module _ (c : Surroundings) (telefone : String) where
  abbrev pub confirms : String → Bool
  confirms texto = one_of (c.lower (strip texto)) confirm_options

  abbrev pub corrects : String → Bool
  corrects texto = one_of (c.lower (strip texto)) correct_options

  orders-summarise :
      (e : Estado) (p : Pedido) (w : DeliveryWorld) → (summarise c telefone e p w).orders ≡ w.orders
  unfolding summarise
  orders-summarise e p w = ground arith

  -- the draft once the reference is given
  abbrev referred : String → Estado → Pedido
  referred texto e = record (or_empty e.pedido) {
    endereco = some (Delivery.text_or_empty e.endereco);
    referencia = some (strip texto);
  }

  -- An order goes to the gateway exactly when the customer is asked to confirm and does, and it is
  -- the order of the draft. The flow ends exactly when the gateway then gives it an id.
  pub execute-orders :
      (texto : String) (e : Estado) (w : DeliveryWorld)
      → let (outcome, _, w') = execute c telefone texto e w in
        let ordered = asks_confirmation e.etapa && confirms texto in
        (w'.orders ≡ (if ordered then entrega_of c telefone e ∷ w.orders else w.orders))
        × (is_finished outcome ≡ ordered && not (c.create_order (entrega_of c telefone e) == 0))
  unfolding execute take_address take_reference answer_confirmation confirm save_process
  execute-orders texto e w = ground (arith, orders-summarise e (referred texto e) w)

  -- The answers of a customer in turn, until the flow ends.
  unfoldable pub run : List String → Estado → DeliveryWorld → Outcome × Estado × DeliveryWorld
  run [] e w = (unfinished, e, w)
  run (texto ∷ textos) e w =
      let (outcome, e', w') = execute c telefone texto e w in
      let rest = run textos e' w' in if is_finished outcome then (outcome, e', w') else rest

  -- answers that neither confirm nor ask for a correction
  pub data AreOther : List String → Type 0 where
    nothing : AreOther []
    another :
        {texto : String} {textos : List String}
        → confirms texto ≡ false
        → corrects texto ≡ false
        → AreOther textos
        → AreOther (texto ∷ textos)

  -- the order of a draft for an address and a reference
  abbrev pub ordered_for : String → String → Estado → Entrega
  ordered_for address reference e = record {
    pedido = record (or_empty e.pedido) {
      endereco = some address;
      referencia = some reference;
      modo_recebimento = some "entrega";
    };
    nome_cliente = e.nome;
    cliente_id = e.cliente_id;
    endereco = if str_eq reference "" then address else address <> (" | Ref: " <> reference);
    data_agendada = e.data_agendada;
  }

  run-other :
      (others : List String) (last : String) (e : Estado) (w : DeliveryWorld)
      → e.etapa ≡ confirmar_entrega
      → AreOther others
      → confirms last ≡ true
      → (c.create_order (entrega_of c telefone e) == 0) ≡ false
      → let (outcome, _, w') = run (others ++ last ∷ []) e w in
        (outcome ≡ finalizar) × (w'.orders ≡ entrega_of c telefone e ∷ w.orders)
  unfolding run execute answer_confirmation confirm save_process
  run-other [] last e w at h said taken = ground arith
  run-other (texto ∷ textos) last e w at (another stays stays' h) said taken =
      ground (arith, run-other textos last e (Flows.tell Delivery.choose_option w) at h said taken)

  orders-take_reference :
      (texto : String) (e : Estado) (w : DeliveryWorld)
      → (take_reference c telefone texto e w).2.orders ≡ w.orders
  unfolding take_reference save_process
  orders-take_reference texto e w = orders-summarise e (referred texto e) w

  entrega_of-take_reference :
      (address reference : String) (e : Estado) (w : DeliveryWorld)
      → let (_, e', w') = take_address c telefone address e w in
        entrega_of c telefone (take_reference c telefone reference e' w').1
        ≡ ordered_for (strip address) (strip reference) e
  unfolding take_address take_reference entrega_of
  entrega_of-take_reference address reference e w = ground arith

  -- From the question for the address: the answers are an address, a reference, any that neither
  -- confirm nor ask for a correction, and one that confirms. Where the gateway takes the order, the
  -- flow ends with exactly one order more, which is for that address and that reference.
  pub run-ordered_for :
      (address reference : String) (others : List String) (last : String) (e : Estado)
      (w : DeliveryWorld)
      → e.etapa ≡ pedir_endereco
      → AreOther others
      → confirms last ≡ true
      → (c.create_order (ordered_for (strip address) (strip reference) e) == 0) ≡ false
      → let (outcome, _, w') = run (address ∷ reference ∷ others ++ last ∷ []) e w in
        (outcome ≡ finalizar)
        × (w'.orders ≡ ordered_for (strip address) (strip reference) e ∷ w.orders)
  unfolding run execute take_address take_reference save_process
  run-ordered_for address reference others last e w at h said taken =
      let (_, e', w') = take_address c telefone address e w in
      let (_, e'', w'') = take_reference c telefone reference e' w' in
      let same = entrega_of-take_reference address reference e w in
      let ordered =
        run-other others last e'' w'' refl h said
          (subst (λ o. (c.create_order o == 0) ≡ false) (sym same) taken) in
      rw at (
        ordered.0,
        ordered.1
            ∙ (ap (λ o. o ∷ w''.orders) same
                ∙ ap (λ os. ordered_for (strip address) (strip reference) e ∷ os)
                    (orders-take_reference reference e' w')),
      )
