-- ===== src/Flows/GiftBox/Payment.antt =====
-- The payment of a gift box and the saving of its order (`salvar_pedido_cesta`): the last steps of
-- `process_cesta_box_flow`.
use Prim.Native.String.{◌++◌ as ◌<>◌}
use chokobot.Flows.{Outcome, unfinished, finalizar, tell, order}
use chokobot.Flows.GiftBox.{
  Etapa, Forma, Pagamento, Dados, Estado, GiftOrder, GiftWorld, Surroundings,
  build_cesta_process_payload, sync_cesta_process, pagamento_forma, pagamento_troco,
  finalizar_venda, entrega, pix, cartao, dinheiro,
}
use chokobot.Common.{
  ℕ, String, Bool, true, false, Option, none, some, strip, str_eq, ◌==◌, if◌then◌else◌,
}
use chokobot.Flows.GiftBox.Texts.{
  payment_menu, ask_change, could_not_confirm, forma_name, confirmation,
}

abbrev pub forma_of : String → Option Forma
forma_of escolha =
    if str_eq escolha "1"
    then some pix
    else if str_eq escolha "2"
    then some cartao
    else if str_eq escolha "3"
    then some dinheiro
    else none

abbrev troco_of : Option Pagamento → Option ℕ
troco_of none = none
troco_of (some p) = p.troco_para

abbrev chosen_forma : Option Pagamento → Option Forma
chosen_forma none = none
chosen_forma (some p) = p.forma

abbrev is_cash : Forma → Bool
is_cash dinheiro = true
is_cash _ = false

abbrev pub Step : Type 0
Step = String → Dados → GiftWorld → Outcome × Estado × GiftWorld

abbrev pub stays : Etapa → Dados → String → GiftWorld → Outcome × Estado × GiftWorld
stays at d body w = (unfinished, record { etapa = at; dados = d }, tell body w)

module _ (c : Surroundings) where
  unfoldable pub gift_order : Dados → GiftOrder
  gift_order d = record {
    payload = build_cesta_process_payload d;
    nome_cliente = c.nome_cliente;
    cliente_id = c.cliente_id;
    delivery = elim d.modo [ some entrega ↦ some d.destino | _ ↦ none ];
  }

  -- With `create_order_bundle` the gateway writes the delivery and the process as well.
  unfoldable pub salvar_pedido_cesta : Dados → GiftWorld → GiftWorld
  unfolding gift_order
  salvar_pedido_cesta d w =
      let id = c.create_order (gift_order d) in
      let asked = order (gift_order d) w in
      if id == 0
      then tell could_not_confirm asked
      else if c.has_bundle
      then tell (confirmation c id d) asked
      else tell (confirmation c id d)
          (sync_cesta_process c "pedido_confirmado" "converted" d (some id) asked)

  -- `dados["pagamento"][…] = …`
  abbrev with_payment : Dados → Pagamento → Dados
  with_payment d p = record d { pagamento = some p }

  unfoldable pub finish : Dados → GiftWorld → Outcome × Estado × GiftWorld
  unfolding salvar_pedido_cesta
  finish d w = (finalizar, record { etapa = finalizar_venda; dados = d }, salvar_pedido_cesta d w)

  unfoldable pub take_payment : Step
  unfolding finish
  take_payment texto d w = elim (forma_of (strip texto)) [
    | none ↦ stays pagamento_forma d ("Não entendi.\n" <> payment_menu) w
    | some f ↦
        let old = troco_of d.pagamento in
        let d' = with_payment d (record { forma = some f; troco_para = old }) in
        let paid = with_payment d (record { forma = some f; troco_para = none }) in
        let w' = sync_cesta_process c "pagamento_pendente" "active" d' none w in
        if is_cash f
        then stays pagamento_troco d' ask_change w'
        else finish paid (tell ("✅ Pagamento registrado: *" <> (forma_name f <> "*")) w')
  ]

  unfoldable pub take_change : Step
  unfolding finish
  take_change texto d w =
      let again =
        stays pagamento_troco d "Valor inválido. Informe apenas números. Exemplo: 50 ou 100." w in
      elim (c.read_amount (strip texto)) [
        | none ↦ again
        | some troco ↦
            let forma = chosen_forma d.pagamento in
            let d' = with_payment d (record { forma = forma; troco_para = some troco }) in
            if troco == 0
            then again
            else finish d' (
                tell
                  ("✅ Pagamento registrado: *Dinheiro* — troco para *R$" <> (c.money troco <> "*"))
                  w)
      ]
