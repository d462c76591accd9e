-- ===== src/Flows/Cafeteria.antt =====
-- `process_cafeteria_flow` (app/application/use_cases/process_cafeteria_flow.py): the menus of the
-- cafeteria, and an order of its items.
pub mod Ordering
use Prim.Native.String.{◌++◌ as ◌<>◌}
use chokobot.Processes.{Upsert, upsert_process}
use chokobot.Flows.{FlowWorld, Outcome, unfinished, finalizar, voltar_menu, tell, order}
use chokobot.Common.{
  ℕ, String, Option, none, some, List, [], ◌∷◌, ◌++◌, str_eq, one_of, if◌then◌else◌,
}

-- `estado["subetapa"]`; any other value, and none, is `sem_subetapa`
pub data Subetapa : Type 0 where
  aguardando_cardapio cardapio_exibido sem_subetapa : Subetapa

pub record Estado : Type 0 where
  pub subetapa : Subetapa
  pub nome : Option String
  pub itens : Option (List String)

-- the draft payload of a process; its category is always "cafeteria"
pub record Payload : Type 0 where
  pub descricao : String
  pub itens : List String

-- the arguments of `save_cafeteria_order`
pub record CafeteriaOrder : Type 0 where
  pub phone : String
  pub itens : List String
  pub nome_cliente : String

abbrev pub CafeteriaWorld : Type 0
CafeteriaWorld = FlowWorld Payload CafeteriaOrder

abbrev pub closing_words : List String
closing_words = "finalizar" ∷ "só isso" ∷ "obrigado" ∷ "obrigada" ∷ []

abbrev pub cafeteria_menu : String
cafeteria_menu = "📋 Cardápio *Cafeteria*:\nhttp://bit.ly/44ZlKlZ\n"

abbrev pub sweets_menu : String
sweets_menu = "📋 Cardápio *Doces Avulsos*:\nhttps://bit.ly/doceschoko\n"

abbrev pub ready_cakes_menu : String
ready_cakes_menu =
    "🎂 Bolos Pronta Entrega:\n- B3 (ate 15 pessoas) — R$120 — sabor padrao: Mesclado com Brigadeiro + Ninho\n- B4 (ate 30 pessoas) — R$180 — sabor padrao: Mesclado com Brigadeiro + Ninho\n🎉 Kit Festou opcional: +R$35\n- Regra atual do fluxo: retirada na loja\n"

abbrev pub another_menu : String
another_menu =
    "\n📖 Deseja ver outro cardápio ou voltar ao menu principal?\n1\u{fe0f}⃣ Ver outro cardápio\n2\u{fe0f}⃣ Voltar ao menu"

abbrev pub which_menu : String
which_menu =
    "📋 Qual cardápio de pronta entrega você deseja ver?\n1\u{fe0f}⃣ Cardápio Cafeteria\n2\u{fe0f}⃣ Cardápio Doces Avulsos\n3\u{fe0f}⃣ Bolos Pronta Entrega"

abbrev pub invalid_menu : String
invalid_menu = "❌ Opção inválida. Digite 1, 2 ou 3."

abbrev pub invalid_choice : String
invalid_choice = "❌ Digite 1 para ver outro cardápio ou 2 para voltar ao menu."

abbrev pub order_closed : String
order_closed = "☕ Pedido finalizado! Em breve confirmaremos com você."

abbrev pub item_noted : String
item_noted = "✅ Pedido registrado! Digite outro item ou *finalizar* para encerrar."

-- `", ".join(itens)`
unfoldable pub join_items : List String → String
join_items [] = ""
join_items (x ∷ []) = x
join_items (x ∷ y ∷ xs) = x <> (", " <> join_items (y ∷ xs))

-- `estado.get("nome", "Nome não informado")`
abbrev pub nome_of : Estado → String
nome_of e = elim e.nome [ none ↦ "Nome não informado" | some n ↦ n ]

abbrev pub payload_of : List String → Payload
payload_of itens = record { descricao = join_items itens; itens = itens }

-- `str.lower` and the clock of the table come from outside.
module _ (lower : String → String) (now : ℕ) (telefone : String) where
  abbrev pub cafeteria_upsert : String → String → List String → Upsert Payload
  cafeteria_upsert stage status itens = record {
    phone = telefone;
    customer_id = none;
    process_type = "cafeteria_order";
    stage = stage;
    status = status;
    source = some "cafeteria";
    draft_payload = payload_of itens;
    order_id = none;
  }

  unfoldable pub save_items : String → String → List String → CafeteriaWorld → CafeteriaWorld
  save_items stage status itens w = record w {
    processes = upsert_process (cafeteria_upsert stage status itens) now w.processes;
  }

  -- the menu of a choice
  unfoldable pub menu_of : String → Option String
  menu_of texto =
      if str_eq texto "1"
      then some cafeteria_menu
      else if str_eq texto "2"
      then some sweets_menu
      else if str_eq texto "3"
      then some ready_cakes_menu
      else none

  unfoldable pub show_menu : String → Estado → CafeteriaWorld → Outcome × Estado × CafeteriaWorld
  unfolding menu_of
  show_menu texto e w = elim (menu_of texto) [
    | none ↦ (unfinished, e, tell invalid_menu w)
    | some menu ↦
        (unfinished, record e { subetapa = cardapio_exibido }, tell (menu <> another_menu) w)
  ]

  unfoldable pub after_menu : String → Estado → CafeteriaWorld → Outcome × Estado × CafeteriaWorld
  after_menu texto e w =
      if str_eq texto "1"
      then (unfinished, record e { subetapa = aguardando_cardapio }, tell which_menu w)
      else if str_eq texto "2"
      then (voltar_menu, e, w)
      else (unfinished, e, tell invalid_choice w)

  unfoldable pub take_item :
      String → List String → Estado → CafeteriaWorld → Outcome × Estado × CafeteriaWorld
  unfolding save_items
  take_item texto itens e w =
      if one_of (lower texto) closing_words
      then (
        finalizar,
        e,
        tell order_closed (
            save_items "pedido_confirmado" "converted" itens
              (order (record { phone = telefone; itens = itens; nome_cliente = nome_of e }) w)),
      )
      else (
        unfinished,
        record e { itens = some (itens ++ texto ∷ []) },
        tell item_noted (save_items "montando_pedido" "active" (itens ++ texto ∷ []) w),
      )

  unfoldable pub process_cafeteria_flow :
      String → Estado → CafeteriaWorld → Outcome × Estado × CafeteriaWorld
  unfolding show_menu after_menu take_item
  process_cafeteria_flow texto e w = elim e.subetapa [
    | aguardando_cardapio ↦ show_menu texto e w
    | cardapio_exibido ↦ after_menu texto e w
    | sem_subetapa ↦ elim e.itens [
      | none ↦ (unfinished, e, w)
      | some itens ↦ take_item texto itens e w
    ]
  ]
