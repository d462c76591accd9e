-- ===== src/Panel.antt =====
-- The processes on the panel (app/application/use_cases/panel_dashboard.py): what a process still
-- lacks, who acts next, and the one process that is shown for each phone.
pub mod Selection
use text.Mathlib.Text.{starts_with}
use chokobot.Processes.{Process, Repository}
use chokobot.Processes.Active.{list_active_processes}
use chokobot.Common.{
  ℕ, String, Bool, true, false, not, ◌&&◌, ◌||◌, Option, none, some, List, [], ◌∷◌, ◌++◌, Dict,
  lookup, insert, strip, str_eq, one_of, is_some, ltb, ◌==◌, if◌then◌else◌,
}

-- the entries of a draft payload that the panel reads, as texts; none where the entry is missing
pub record Payload : Type 0 where
  pub has_itens : Bool
  pub descricao : Option String
  pub cesta_nome : Option String
  pub modo_recebimento : Option String
  pub data_entrega : Option String
  pub data_pedido : Option String
  pub horario_retirada : Option String
  pub horario : Option String
  pub forma : Option String
  pub forma_pagamento : Option String
  pub endereco : Option String

-- `a or b`, and `not a`, for texts that may be missing
unfoldable pub or_default : Option String → String → String
or_default none b = b
or_default (some a) b = if str_eq a "" then b else a

unfoldable pub is_blank : Option String → Bool
is_blank none = true
is_blank (some a) = str_eq a ""

abbrev pub item_if : Bool → String → List String
item_if b item = if b then item ∷ [] else []

-- who acts next
pub data Owner : Type 0 where
  cliente bot humano : Owner

-- `_process_business_state`
pub data BusinessState : Type 0 where
  handoff confirmed draft_ai draft_manual : BusinessState

-- the priorities of _PROCESS_STAGE_META, and 9 for a stage that it does not have
unfoldable pub stage_priority : String → ℕ
stage_priority stage =
    if str_eq stage "handoff_humano"
    then 0
    else if one_of stage ("aguardando_confirmacao" ∷ "pagamento_pendente" ∷ [])
    then 1
    else if str_eq stage "coletando_endereco"
    then 2
    else if one_of stage ("coletando_dados" ∷ "pedido_confirmado" ∷ [])
    then 3
    else if str_eq stage "montando_pedido"
    then 4
    else 9

unfoldable pub is_handoff : String → String → Bool
is_handoff process_type stage = str_eq process_type "human_handoff" || str_eq stage "handoff_humano"

unfoldable pub process_business_state : {P : Type 0} → Process P → BusinessState
process_business_state p =
    if is_handoff p.process_type p.stage
    then handoff
    else if is_some p.order_id
        || (str_eq p.stage "pedido_confirmado" || str_eq p.status "converted")
    then confirmed
    else if starts_with p.process_type "ai_"
    then draft_ai
    else draft_manual

-- `_resolve_process_owner`, without the hint
unfoldable pub resolve_process_owner : String → String → Owner
resolve_process_owner process_type stage =
    if is_handoff process_type stage
    then humano
    else if one_of stage ("aguardando_confirmacao" ∷ "pagamento_pendente" ∷ [])
    then cliente
    else if starts_with process_type "ai_"
    then bot
    else humano

unfoldable pub process_source_key : String → String → String
process_source_key process_type stage =
    if is_handoff process_type stage
    then "estados_atendimento"
    else if str_eq process_type "delivery_order"
    then "estados_entrega"
    else if str_eq process_type "cafeteria_order"
    then "estados_cafeteria"
    else if str_eq process_type "cesta_box_order"
    then "estados_cestas_box"
    else if str_eq process_type "ai_cake_order"
    then "CakeOrderAgent"
    else if str_eq process_type "ai_sweet_order"
    then "SweetOrderAgent"
    else if str_eq process_type "ai_cafeteria_order"
    then "CafeteriaAgent"
    else "estados_encomenda"

-- the types of an order that may be delivered
abbrev pub delivered_types : List String
delivered_types =
    "delivery_order" ∷ "cesta_box_order" ∷ "ai_cake_order" ∷ "ai_sweet_order" ∷ "ai_cafeteria_order"
    ∷ []

module _ (casefold : String → String) where
  unfoldable pub lacks_payment : Payload → Bool
  lacks_payment p =
      let method = strip (or_default p.forma (or_default p.forma_pagamento "")) in
      str_eq method "" || str_eq (casefold method) "pendente"

  unfoldable pub lacks_address : String → Payload → Bool
  lacks_address process_type p =
      one_of process_type delivered_types
      && (str_eq (casefold (strip (or_default p.modo_recebimento "entrega"))) "entrega"
          && str_eq (strip (or_default p.endereco "")) "")

  -- what a box lacks, and what any order lacks
  unfoldable pub order_items : String → Payload → List String
  order_items process_type p =
      let box = str_eq process_type "cesta_box_order" in
      item_if (box && (is_blank p.cesta_nome && is_blank p.descricao)) "Cesta"
      ++ (item_if (box && str_eq (strip (or_default p.modo_recebimento "")) "")
            "Modo de recebimento"
          ++ (item_if (is_blank p.data_entrega && is_blank p.data_pedido) "Data"
              ++ (item_if (is_blank p.horario_retirada && is_blank p.horario) "Horario"
                  ++ (item_if (lacks_payment p) "Pagamento"
                      ++ item_if (lacks_address process_type p) "Endereco"))))

  unfoldable pub or_final : String → List String → List String
  or_final stage [] = item_if (str_eq stage "aguardando_confirmacao") "Confirmacao final"
  or_final stage (item ∷ missing) = item ∷ missing

  -- `_process_missing_items`
  unfoldable pub process_missing_items : String → String → Payload → List String
  process_missing_items process_type stage p =
      if str_eq process_type "cafeteria_order"
      then item_if (not p.has_itens && is_blank p.descricao) "Itens"
        ++ item_if (str_eq stage "montando_pedido") "Finalizacao do pedido"
      else or_final stage (order_items process_type p)

-- the key of a process: its priority, and when it was updated
abbrev pub Key : Type 0
Key = ℕ × ℕ

abbrev pub less : Key → Key → Bool
less (a, b) (x, y) = ltb a x || (a == x && ltb b y)

module _ {P : Type 0} where
  unfoldable pub sort_key : Process P → Key
  sort_key p = (stage_priority p.stage, p.updated_at)

  -- whether a process takes the place of the one that is selected for its phone
  unfoldable pub replaces : Process P → Option (Process P) → Bool
  replaces p none = true
  replaces p (some current) = less (sort_key p) (sort_key current)

  -- The loop over the processes. The key of a selected process is computed again.
  unfoldable pub select : Dict (Process P) → List (Process P) → Dict (Process P)
  select selected [] = selected
  select selected (p ∷ ps) =
      select (if replaces p (lookup p.phone selected) then insert p.phone p selected else selected)
        ps

  -- `_active_processes_by_phone`
  unfoldable pub active_processes_by_phone : Repository P → Dict (Process P)
  active_processes_by_phone r = select [] (list_active_processes r)
