-- ===== src/Flows/GiftBox.antt =====
-- `process_cesta_box_flow` (app/application/use_cases/process_cesta_box_flow.py): the choice of a gift
-- box, its date and time, how it is received, the confirmation and the payment. The entries of
-- `dados` and what the flow is given are here; the steps are in Steps.
pub mod Texts
pub mod Payment
pub mod Steps
pub mod Ready
pub mod Orders
use chokobot.Processes.{Upsert, upsert_process}
use chokobot.Flows.{FlowWorld, tell}
use chokobot.Common.{ℕ, ◌+◌, String, Bool, Option, none, some, List, str_eq, if◌then◌else◌}

pub data Etapa : Type 0 where
  selecao data_entrega hora_retirada modo_recebimento endereco confirmar_pedido pagamento_forma
        pagamento_troco finalizar_venda :
      Etapa

pub data Modo : Type 0 where
  retirada entrega : Modo

pub data Forma : Type 0 where
  pix cartao dinheiro : Forma

-- `dados["pagamento"]`; the amount in cents
pub record Pagamento : Type 0 where
  pub forma : Option Forma
  pub troco_para : Option ℕ

-- an entry of CESTAS_BOX_CATALOGO, with the price in cents
pub record Cesta : Type 0 where
  pub numero : String
  pub nome : String
  pub preco : ℕ
  pub descricao : String

-- `dados`; the number of people that a box serves and the category follow from the box
pub record Dados : Type 0 where
  pub cesta : Option Cesta
  pub data_agendada : Option String
  pub horario : Option String
  pub modo : Option Modo
  pub taxa_entrega : Option ℕ
  pub destino : Option String
  pub pagamento : Option Pagamento

abbrev pub no_dados : Dados
no_dados = record {
  cesta = none;
  data_agendada = none;
  horario = none;
  modo = none;
  taxa_entrega = none;
  destino = none;
  pagamento = none;
}

pub record Estado : Type 0 where
  pub etapa : Etapa
  pub dados : Dados

-- `_build_cesta_process_payload`
pub record Payload : Type 0 where
  pub cesta : Option Cesta
  pub data_agendada : Option String
  pub horario : Option String
  pub modo : Option Modo
  pub destino : String
  pub valor_total : ℕ
  pub pagamento : Option Pagamento

-- The arguments of `create_order_bundle`, or of `create_order` and `create_delivery`: the order, and
-- the address of the delivery where there is one.
pub record GiftOrder : Type 0 where
  pub payload : Payload
  pub nome_cliente : String
  pub cliente_id : ℕ
  pub delivery : Option (Option String)

abbrev pub GiftWorld : Type 0
GiftWorld = FlowWorld Payload GiftOrder

-- What the flow is given: the customer, `str.lower`, `_valida_data`, `validate_service_date` and
-- `validate_service_schedule` (none where the date or time is right), `_parse_hora`,
-- `_horario_entrega_permitido`, the amount that `float` reads once a comma is a point (in cents, 0 where it
-- is not positive, none where `float` raises), the writing of an amount, the order gateway (0 stands for an id that is not positive) and whether it
-- has `create_order_bundle`, and the clock of the table.
pub record Surroundings : Type 0 where
  pub telefone : String
  pub nome_cliente : String
  pub cliente_id : ℕ
  pub lower : String → String
  pub valida_data : String → Bool
  pub validate_service_date : String → Option String
  pub validate_service_schedule : Option String → String → Option String
  pub parse_hora : String → Option String
  pub horario_entrega_permitido : Option String → Bool
  pub read_amount : String → Option ℕ
  pub money : ℕ → String
  pub write_id : ℕ → String
  pub create_order : GiftOrder → ℕ
  pub has_bundle : Bool
  pub now : ℕ

-- `dados.get(key, 0.0)`, `dados.get(key, "")`
abbrev pub or_zero : Option ℕ → ℕ
or_zero none = 0
or_zero (some n) = n

abbrev pub or_blank : Option String → String
or_blank none = ""
or_blank (some s) = s

abbrev pub preco_of : Option Cesta → ℕ
preco_of none = 0
preco_of (some b) = b.preco

-- `dados.get("cesta_preco", 0.0) + dados.get("taxa_entrega", 0.0)`
unfoldable pub valor_total : Dados → ℕ
valor_total d = preco_of d.cesta + or_zero d.taxa_entrega

unfoldable pub build_cesta_process_payload : Dados → Payload
build_cesta_process_payload d = record {
  cesta = d.cesta;
  data_agendada = d.data_agendada;
  horario = d.horario;
  modo = d.modo;
  destino = or_blank d.destino;
  valor_total = valor_total d;
  pagamento = d.pagamento;
}

module _ (c : Surroundings) where
  abbrev pub cesta_upsert : String → String → Dados → Option ℕ → Upsert Payload
  cesta_upsert stage status d order_id = record {
    phone = c.telefone;
    customer_id = some c.cliente_id;
    process_type = "cesta_box_order";
    stage = stage;
    status = status;
    source = some "cesta_box";
    draft_payload = build_cesta_process_payload d;
    order_id = order_id;
  }

  unfoldable pub sync_cesta_process : String → String → Dados → Option ℕ → GiftWorld → GiftWorld
  sync_cesta_process stage status d order_id w = record w {
    processes = upsert_process (cesta_upsert stage status d order_id) c.now w.processes;
  }
