-- ===== src/Flows/Cake/Summary.antt =====
-- `montar_resumo` (app/services/precos.py), the text that shows the order of a pickup.
use chokobot.Schedule.Calendar.{ℤ, pos, negsuc}
use chokobot.Prices.Drafts.{is_missing}
use chokobot.Prices.Sweets.{Doce}
use chokobot.Flows.Cake.{CakeOrder, Surroundings, or_blank, or_none}
use chokobot.Common.{
  ℕ, ◌+◌, String, Option, none, some, List, [], ◌∷◌, ◌++◌, strip, str_eq, join, ltb, if◌then◌else◌,
}

-- an f-string of `pedido.get(key, "")`
abbrev entry_text : Option (Option String) → String
entry_text none = ""
entry_text (some o) = or_none o

-- an f-string of `pedido["fruta_ou_nozes"]`, after a plus
unfoldable pub with_fruit : String → Option String → String
unfolding is_missing
with_fruit desc fruta =
    if is_missing fruta then desc else join "" (desc ∷ " + " ∷ or_blank fruta ∷ [])

abbrev flat : Option (Option String) → Option String
flat none = none
flat (some o) = o

-- `linhas[-1] = linhas[-1] + f" ×{q}"`
unfoldable pub on_last : String → List String → List String
on_last suffix [] = []
on_last suffix (x ∷ []) = join "" (x ∷ suffix ∷ []) ∷ []
on_last suffix (x ∷ y ∷ xs) = x ∷ on_last suffix (y ∷ xs)

module _ (c : Surroundings) where
  unfoldable pub cake_lines : CakeOrder → List String
  unfolding with_fruit is_missing
  cake_lines o =
      let cat = c.casing.lower (or_blank o.priced.categoria) in
      if str_eq cat "tradicional"
      then join "" (
          "- "
          ∷ with_fruit
              (strip (join "" (entry_text o.priced.tamanho ∷ " " ∷ or_blank o.descricao ∷ [])))
              o.priced.fruta_ou_nozes
          ∷ [])
        ∷ []
      else if str_eq cat "embrulhado"
      then join "" ("- Bolo embrulhado (" ∷ entry_text o.priced.pedacos ∷ " pedaços)" ∷ []) ∷ []
      else if str_eq cat "simples"
      then join "" ("- Bolo Simples () com cobertura " ∷ or_blank o.priced.cobertura ∷ [])
        ∷ "Serve 8 fatias"
        ∷ []
      else if is_missing (flat o.priced.produto)
      then []
      else join "" (
          "- "
          ∷ c.capitalize (or_blank o.priced.categoria)
          ∷ " "
          ∷ or_blank (flat o.priced.produto)
          ∷ [])
        ∷ []

  unfoldable pub multiplied : Option ℤ → List String → List String
  unfolding on_last
  multiplied (some (pos q)) linhas =
      if ltb 1 q then on_last (join "" (" ×" ∷ c.write_number q ∷ [])) linhas else linhas
  multiplied (some (negsuc n)) linhas = linhas
  multiplied none linhas = linhas

  unfoldable pub item_lines : CakeOrder → List String
  unfolding cake_lines multiplied
  item_lines o = multiplied o.priced.quantidade (
      cake_lines o
      ++ (if o.priced.kit_festou
          then "🎉 + Kit Festou (25 brigadeiros + 1 balão 🎈 personalizado) — R$35" ∷ []
          else []))

  -- `_doces_bloco`; an item always has a price
  unfoldable pub doce_lines : List Doce → List String
  doce_lines [] = []
  doce_lines (d ∷ ds) =
      join "" ("- " ∷ d.nome ∷ " x" ∷ c.write_number d.qtd ∷ " — R$" ∷ c.money d.preco ∷ [])
      ∷ doce_lines ds

  unfoldable pub doces_bloco : CakeOrder → String × ℕ
  unfolding doce_lines
  doces_bloco o = elim o.doces_itens [
    | none ↦ ("", 0)
    | some [] ↦ ("", 0)
    | some (d ∷ ds) ↦ (join "\n" ("" ∷ "🍬 *Doces*:" ∷ doce_lines (d ∷ ds)), o.doces_total)
  ]

  unfoldable pub cup_lines : Option (List String) → List String
  cup_lines (some (cor ∷ cores)) = join "" ("🎨 Forminhas: " ∷ join ", " (cor ∷ cores) ∷ []) ∷ []
  cup_lines (some []) = []
  cup_lines none = []

  unfoldable pub total_lines : CakeOrder → ℕ → List String
  unfolding doces_bloco cup_lines
  total_lines o total_bolo =
      let (doces_txt, total_doces) = doces_bloco o in
      if str_eq doces_txt ""
      then "———" ∷ join "" ("*Total: R$" ∷ c.money total_bolo ∷ "*" ∷ []) ∷ []
      else doces_txt ∷ cup_lines o.doces_forminha
        ++ ("———"
            ∷ join "" ("Total do Bolo: R$" ∷ c.money total_bolo ∷ [])
            ∷ join "" ("Total dos Doces: R$" ∷ c.money total_doces ∷ [])
            ∷ "———"
            ∷ join "" ("*Total Geral: R$" ∷ c.money (total_bolo + total_doces) ∷ "*" ∷ [])
            ∷ [])

  unfoldable pub montar_resumo : CakeOrder → ℕ → String
  unfolding item_lines total_lines
  montar_resumo o total_bolo = join "\n" (
      "✅ *Resumo do pedido*"
      ∷ join "" ("📅 Data: " ∷ or_none o.data_entrega ∷ [])
      ∷ join "" ("⏰ Retirada: " ∷ or_none o.horario_retirada ∷ [])
      ∷ "📦 Itens:"
      ∷ join "\n" (item_lines o)
      ∷ total_lines o total_bolo)
