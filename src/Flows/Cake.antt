-- ===== src/Flows/Cake.antt =====
-- `processar_encomenda` (app/services/encomendas.py): the order of a cake, from the choice of its line
-- to the confirmation of a pickup, or to the flow of a delivery. The draft and what the flow is given are
-- here; Draft has what the draft becomes, and the steps are in Lines, Parties, Dates, Receiving,
-- ReadyMade and Closing, put together in Steps.
pub mod Stages
pub mod Texts
pub mod Draft
pub mod Lines
pub mod Parties
pub mod Dates
pub mod Summary
pub mod Receiving
pub mod ReadyMade
pub mod Closing
pub mod Steps
pub mod Priced
pub mod Ready
pub mod Silent
pub mod Orders
pub mod Endings
pub mod Delivered
use chokobot.Prices.Totals
use chokobot.Prices.Totals.{Casing}
use chokobot.Prices.Sweets.{Doce}
use chokobot.Prices.Sweets
use chokobot.Flows.{FlowWorld, Outcome, unfinished, tell}
use chokobot.Flows.Delivery
use chokobot.Flows.Delivery.{Payment}
use chokobot.Flows.Cake.Stages.{Etapa, Subetapa}
use chokobot.Common.{ℕ, String, Bool, false, Option, none, some, List, []}

-- `pedido`, `dados["pedido_preview"]`. An entry that may be missing is an option, and amounts are in
-- cents. The order for a party (mesversario) is the one without entries for the kit, the fruit and the
-- sweets, which are none in it; what it repeats of the draft (massa, recheio, mousse) is left out.
pub record CakeOrder : Type 0 where
  pub priced : Totals.Pedido
  pub data_entrega : Option String
  pub horario_retirada : Option String
  pub descricao : Option String
  pub doces_itens : Option (List Doce)
  pub doces_total : ℕ
  pub doces_forminha : Option (List String)
  pub valor_total : Option ℕ
  pub serve_pessoas : Option ℕ

-- `dados`. `mousse` is an entry that is missing, or None, or a text.
pub record Dados : Type 0 where
  pub linha : Option String
  pub sub_linha : Option String
  pub subetapa : Option Subetapa
  pub massa : Option String
  pub recheio : Option String
  pub mousse : Option (Option String)
  pub tamanho : Option String
  pub adicional : Option String
  pub produto : Option String
  pub sabor : Option String
  pub frase : Option String
  pub cobertura : Option String
  pub kit_festou : Bool
  pub categoria : Option String
  pub descricao : Option String
  pub fruta_ou_nozes : Option String
  pub preco_base : Option ℕ
  pub serve_pessoas : Option ℕ
  pub valor_total : Option ℕ
  pub taxa_entrega : Option ℕ
  pub data_entrega : Option String
  pub horario_retirada : Option String
  pub doces_itens : List Doce
  pub doces_total : ℕ
  pub doces_tipo_forminha : Option String
  pub doces_forminha : List String
  pub pedido_preview : Option CakeOrder
  pub pagamento : Option Payment
  pub pos_pagamento : Bool
  pub modo_recebimento : Option String
  pub endereco : Option String
  pub referencia : Option String

-- `{}`
abbrev pub no_dados : Dados
no_dados = record {
  linha = none;
  sub_linha = none;
  subetapa = none;
  massa = none;
  recheio = none;
  mousse = none;
  tamanho = none;
  adicional = none;
  produto = none;
  sabor = none;
  frase = none;
  cobertura = none;
  kit_festou = false;
  categoria = none;
  descricao = none;
  fruta_ou_nozes = none;
  preco_base = none;
  serve_pessoas = none;
  valor_total = none;
  taxa_entrega = none;
  data_entrega = none;
  horario_retirada = none;
  doces_itens = [];
  doces_total = 0;
  doces_tipo_forminha = none;
  doces_forminha = [];
  pedido_preview = none;
  pagamento = none;
  pos_pagamento = false;
  modo_recebimento = none;
  endereco = none;
  referencia = none;
}

-- `estado`
pub record Estado : Type 0 where
  pub etapa : Etapa
  pub linha : Option String
  pub modo_recebimento : Option String
  pub dados : Dados

-- What `_prepara_dados_para_salvar` returns: the draft, with the entries that it sets.
pub record Saved : Type 0 where
  pub dados : Dados
  pub descricao : String
  pub categoria : String
  pub fruta_ou_nozes : Option String
  pub valor_total : ℕ
  pub data_entrega : Option String
  pub forma_pagamento : String
  pub troco_para : Option ℕ
  pub taxa_entrega : ℕ

-- What the flow hands on: an order of a pickup for the order gateway (with the date of the pickup, in
-- a gateway that takes both), a pickup for the delivery gateway, or a draft for the flow of
-- deliveries, as `estados_entrega[telefone]`.
pub data Request : Type 0 where
  order_requested : Saved → Request
  pickup_created : ℕ → Option String → Request
  delivery_started : Saved → Delivery.Estado → Request

abbrev pub CakeWorld : Type 0
CakeWorld = FlowWorld Saved Request

-- What the flow is given: the customer; the change of case, and `str.capitalize`; `strptime` for a
-- date as DD/MM/YYYY, written as YYYY-MM-DD (none where it raises); the date of tomorrow; `_parse_hora`,
-- `_horario_entrega_permitido` and the label of the last hour for deliveries; the reading of sweets; the
-- amount that `float` reads (in cents, 0 where it is not positive, none where it raises); the writing of
-- an amount and of a number; the address of the menu of sweets; the order gateway (0 stands for an id
-- that is not positive) and whether it has `create_order_bundle`; and the clock of the table.
pub record Surroundings : Type 0 where
  pub telefone : String
  pub nome_cliente : String
  pub cliente_id : ℕ
  pub casing : Casing
  pub capitalize : String → String
  pub iso_date : String → Option String
  pub tomorrow : String
  pub parse_hora : String → Option String
  pub horario_entrega_permitido : Option String → Bool
  pub limite_horario_entrega : String
  pub reading : Sweets.Reading
  pub read_amount : String → Option ℕ
  pub money : ℕ → String
  pub write_number : ℕ → String
  pub doces_url : String
  pub create_order : Saved → ℕ
  pub has_bundle : Bool
  pub now : ℕ

-- How a call of the flow ends: it returns, or an exception of the prices leaves it.
pub data Reply : Type 0 where
  replies : Outcome → Reply
  raises : Totals.PriceError → Reply

abbrev pub Step : Type 0
Step = String → Estado → CakeWorld → Reply × Estado × CakeWorld

-- The step ends with a text, at a step and with a draft.
abbrev pub stays : Etapa → Dados → String → Estado → CakeWorld → Reply × Estado × CakeWorld
stays at d body e w = (replies unfinished, record e { etapa = at; dados = d }, tell body w)

-- `dados.get(key, "")`
abbrev pub or_blank : Option String → String
or_blank none = ""
or_blank (some s) = s

-- an f-string writes None for an entry that is missing
abbrev pub or_none : Option String → String
or_none none = "None"
or_none (some s) = s
