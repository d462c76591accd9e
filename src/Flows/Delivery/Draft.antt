-- ===== src/Flows/Delivery/Draft.antt =====
-- The draft of a delivery, what its flow is given, and the texts that it sends.
use chokobot.Flows.{FlowWorld}
use chokobot.Common.{ℕ, String, Bool, Option, none, some, List, [], ◌∷◌, ◌==◌, if◌then◌else◌}

-- `pagamento`, with the amounts in cents
pub record Payment : Type 0 where
  pub forma : Option String
  pub troco_para : Option ℕ

-- The draft of the order, `dados["pedido"]`; `produto` stands for its other entries, which the flow
-- only hands on.
pub record Pedido : Type 0 where
  pub endereco : Option String
  pub referencia : Option String
  pub modo_recebimento : Option String
  pub pagamento : Option Payment
  pub taxa_entrega : Option ℕ
  pub valor_total : Option ℕ
  pub produto : Option String

abbrev pub empty_pedido : Pedido
empty_pedido = record {
  endereco = none;
  referencia = none;
  modo_recebimento = none;
  pagamento = none;
  taxa_entrega = none;
  valor_total = none;
  produto = none;
}

-- `estado["etapa"]`: 1, 2, "confirmar_entrega", or a value that the flow does not know
pub data Etapa : Type 0 where
  pedir_endereco pedir_referencia confirmar_entrega desconhecida : Etapa

-- `estado`, with the entries of `estado["dados"]`; a missing or empty `pedido` is none
pub record Estado : Type 0 where
  pub etapa : Etapa
  pub endereco : Option String
  pub referencia : Option String
  pub pedido : Option Pedido
  pub pagamento : Option Payment
  pub data_agendada : Option String
  pub nome : String
  pub cliente_id : Option ℕ

-- the arguments of `create_order_bundle`, or of `create_order` and `create_delivery`
pub record Entrega : Type 0 where
  pub pedido : Pedido
  pub nome_cliente : String
  pub cliente_id : Option ℕ
  pub endereco : String
  pub data_agendada : Option String

-- What the flow is given: `str.lower`, the order gateway (0 stands for an id that is not positive)
-- and whether it has `create_order_bundle`, `montar_resumo` (none where it raises), the writing of an
-- amount, and the clock of the table.
pub record Surroundings : Type 0 where
  pub lower : String → String
  pub has_bundle : Bool
  pub create_order : Entrega → ℕ
  pub montar_resumo : Pedido → ℕ → Option String
  pub money : ℕ → String
  pub now : ℕ

abbrev pub DeliveryWorld : Type 0
DeliveryWorld = FlowWorld Pedido Entrega

abbrev pub confirm_options : List String
confirm_options =
    "1" ∷ "confirmar" ∷ "ok" ∷ "c" ∷ "sim" ∷ "s" ∷ "confirmar pedido" ∷ "pedido confirmado"
    ∷ "confirmo" ∷ []

abbrev pub correct_options : List String
correct_options = "2" ∷ "corrigir" ∷ "endereco" ∷ "endereço" ∷ "ajustar" ∷ "editar" ∷ []

abbrev pub ask_reference : String
ask_reference =
    "📞 Informe um *telefone alternativo* ou *referência* (ex.: portaria, bloco, ponto de referência):"

abbrev pub ask_confirmation : String
ask_confirmation =
    "Está tudo correto?\n1\u{fe0f}⃣ Confirmar pedido\n2\u{fe0f}⃣ Corrigir endereço\n3\u{fe0f}⃣ Falar com atendente"

abbrev pub could_not_confirm : String
could_not_confirm =
    "⚠\u{fe0f} Nao consegui confirmar seu pedido agora. Pode tentar novamente em instantes?"

abbrev pub confirmed : String
confirmed =
    "Pedido confirmado com sucesso ✅\nObrigada por encomendar com a *Choko* ❤\n✨ Se registrar o momento nas redes sociais, lembre de nos marcar @chokodelicia"

abbrev pub ask_address_again : String
ask_address_again = "Sem problema! Envie novamente o *endereço completo*:"

abbrev pub choose_option : String
choose_option = "Escolha uma opção:\n1\u{fe0f}⃣ Confirmar pedido\n2\u{fe0f}⃣ Corrigir endereço"

-- `d.get(key, "")`, `d.get("pedido") or {}`
abbrev pub text_or_empty : Option String → String
text_or_empty none = ""
text_or_empty (some s) = s

abbrev pub or_empty : Option Pedido → Pedido
or_empty none = empty_pedido
or_empty (some p) = p

-- `x or default` for an amount
unfoldable pub amount_or : ℕ → Option ℕ → ℕ
amount_or default none = default
amount_or default (some x) = if x == 0 then default else x
