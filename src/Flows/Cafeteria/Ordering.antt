-- ===== src/Flows/Cafeteria/Ordering.antt =====
-- What an order of the cafeteria holds: the items that the customer has named, in their order.
use mathlib.Core.List.{append-nil, append_assoc}
use chokobot.Processes.{Process, get_process, merge_row, new_row}
use chokobot.Processes.Laws.{get_process-upsert_process}
use chokobot.Flows
use chokobot.Flows.{Outcome, unfinished, finalizar, voltar_menu, is_finished}
use chokobot.Flows.Cafeteria
use chokobot.Flows.Cafeteria.{
  Estado, Subetapa, Payload, CafeteriaOrder, CafeteriaWorld, process_cafeteria_flow, take_item,
  save_items, show_menu, after_menu, cafeteria_upsert, closing_words, nome_of, payload_of,
  sem_subetapa,
}
use chokobot.Common.{
  ℕ, String, ◌≡◌, refl, sym, Bool, true, false, Option, none, some, List, [], ◌∷◌, ◌++◌, arith,
  eq_refl, one_of, if◌then◌else◌,
}

abbrev pub draft_of : Option (Process Payload) → Option (String × Payload)
draft_of none = none
draft_of (some p) = some (p.stage, p.draft_payload)

module _ (lower : String → String) (now : ℕ) (telefone : String) where
  -- The answers of a customer in turn, until the flow ends.
  unfoldable pub run : List String → Estado → CafeteriaWorld → Outcome × Estado × CafeteriaWorld
  run [] e w = (unfinished, e, w)
  run (texto ∷ textos) e w =
      let (outcome, e', w') = process_cafeteria_flow lower now telefone texto e w in
      let rest = run textos e' w' in if is_finished outcome then (outcome, e', w') else rest

  abbrev pub closes : String → Bool
  closes texto = one_of (lower texto) closing_words

  -- answers that name an item
  pub data AreItems : List String → Type 0 where
    nothing : AreItems []
    another :
        {texto : String} {textos : List String}
        → closes texto ≡ false
        → AreItems textos
        → AreItems (texto ∷ textos)

  -- what the table says of the phone's order
  abbrev pub draft : CafeteriaWorld → Option (String × Payload)
  draft w = draft_of (get_process telefone "cafeteria_order" w.processes)

  draft-save_items :
      (stage status : String) (itens : List String) (w : CafeteriaWorld)
      → draft (save_items lower now telefone stage status itens w) ≡ some (stage, payload_of itens)
  unfolding save_items merge_row new_row
  draft-save_items stage status itens w =
      rw
        (get_process-upsert_process telefone "cafeteria_order"
          (cafeteria_upsert lower now telefone stage status itens) now w.processes)
        (ground (arith, eq_refl telefone))

  -- Outside the menus and with some items noted: answers that name more, and then a word that closes
  -- the order, end the flow with exactly one order more, of all the items in the order in which they
  -- were named. The table has the same items, as a confirmed order.
  pub run-AreItems :
      (textos : List String) (last : String) (itens : List String) (e : Estado) (w : CafeteriaWorld)
      → e.subetapa ≡ sem_subetapa
      → e.itens ≡ some itens
      → AreItems textos
      → closes last ≡ true
      → let (outcome, _, w') = run (textos ++ last ∷ []) e w in
        (outcome ≡ finalizar)
        × (w'.orders
            ≡ record { phone = telefone; itens = itens ++ textos; nome_cliente = nome_of e }
              ∷ w.orders)
        × (draft w' ≡ some ("pedido_confirmado", payload_of (itens ++ textos)))
  unfolding run process_cafeteria_flow take_item
  run-AreItems [] last itens e w at noted nothing said =
      rw (at, noted, said, append-nil itens)
        (
          refl,
          refl,
          draft-save_items "pedido_confirmado" "converted" itens (
              Flows.order (record { phone = telefone; itens = itens; nome_cliente = nome_of e }) w),
        )
  run-AreItems (texto ∷ textos) last itens e w at noted (another stays h) said =
      rw (at, noted, stays, sym (append_assoc itens (texto ∷ []) textos))
        (run-AreItems textos last (itens ++ texto ∷ [])
          (record e { subetapa = sem_subetapa; itens = some (itens ++ texto ∷ []) })
          (Flows.tell Cafeteria.item_noted
            (save_items lower now telefone "montando_pedido" "active" (itens ++ texto ∷ []) w))
          refl refl h said)
