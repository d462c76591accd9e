-- ===== src/Flows/Cake/Dates.antt =====
-- The steps of `processar_encomenda` (app/services/encomendas.py) on the date, the time and the sweets.
use Prim.Native.Char.{code}
use chokobot.Prices.Sweets.{unknown_doce, doces, parse_doces_input}
use chokobot.Flows.{tell}
use chokobot.Flows.Cake.{Dados, Surroundings, Step, stays}
use chokobot.Flows.Cake.Stages.{
  etapa_6, data_entrega, hora_retirada, doces_oferta, doces_captura, doces_tipo_forminha,
  doces_forminha,
}
use chokobot.Flows.Cake.Texts.Closing.{
  ask_time, wrong_date, wrong_time, ask_doces, ask_tipo, wrong_tipo, ask_cores,
}
use chokobot.Common.{
  ℕ, ◌-◌, ◌==◌, ◌&&◌, ◌||◌, String, Option, none, some, is_some, List, [], ◌∷◌, take, strip, str_eq,
  one_of, join, contains, if◌then◌else◌,
}

-- `float(dados.get("taxa_entrega") or 10.0)`
abbrev pub taxa_of : Option ℕ → ℕ
taxa_of none = 1000
taxa_of (some taxa) = if taxa == 0 then 1000 else taxa

-- `"," | "\n" | " e "` in any case, at the beginning of a text: its length, 0 where there is none
unfoldable pub separator : String → ℕ
separator (String.◌∷◌ a String.[]) = if code a == b',' || code a == 10 then 1 else 0
separator (String.◌∷◌ a (String.◌∷◌ b String.[])) = if code a == b',' || code a == 10 then 1 else 0
separator (String.◌∷◌ a (String.◌∷◌ b (String.◌∷◌ x s))) =
    if code a == b',' || code a == 10
    then 1
    else if code a == 32 && ((code b == b'e' || code b == b'E') && code x == 32)
    then 3
    else 0
separator String.[] = 0

-- `re.split(r"(?:,|\n| e )", text)`, once so many characters of a separator are passed over
unfoldable pub split_colours : ℕ → String → String × List String
unfolding separator
split_colours passed String.[] = ("", [])
split_colours passed (String.◌∷◌ x s) =
    let width = separator (String.◌∷◌ x s) in
    let (piece, later) = split_colours (if passed == 0 then width - 1 else passed - 1) s in
    if passed == 0
    then if width == 0 then (String.◌∷◌ x piece, later) else ("", piece ∷ later)
    else (piece, later)

abbrev pub cores_validas : List String
cores_validas =
    "Marrom" ∷ "Amarelo" ∷ "Azul Claro" ∷ "Azul Escuro" ∷ "Verde Claro" ∷ "Verde Escuro"
    ∷ "Rosa Claro" ∷ "Pink" ∷ "Laranja" ∷ "Lilás" ∷ "Preto" ∷ "Branco" ∷ []

unfoldable pub invalidas : List String → List String
unfolding one_of
invalidas [] = []
invalidas (cor ∷ cores) =
    let rest = invalidas cores in if one_of cor cores_validas then rest else cor ∷ rest

abbrev tipo_or : Option String → String
tipo_or none = "Tradicional"
tipo_or (some tipo) = tipo

module _ (c : Surroundings) where
  -- the names of the colours, without the empty ones
  unfoldable pub colour_names : List String → List String
  unfolding strip
  colour_names [] = []
  colour_names (p ∷ ps) =
      let rest = colour_names ps in
      if str_eq (strip p) "" then rest else c.casing.title (strip p) ∷ rest

  unfoldable pub cores_escolhidas : String → List String
  unfolding colour_names split_colours
  cores_escolhidas entrada =
      let (piece, later) = split_colours 0 entrada in colour_names (piece ∷ later)

  -- Without a date it is the one of tomorrow.
  unfoldable pub take_date : Step
  unfolding strip
  take_date texto e w =
      let limpo = strip texto in
      let d : Dados = e.dados in
      if str_eq limpo ""
      then stays hora_retirada (record d { data_entrega = some c.tomorrow }) ask_time e
          (tell
            (join "" (
              "📅 Nenhuma data informada — será agendada automaticamente para *amanhã (" ∷ c.tomorrow
              ∷ ")*." ∷ []))
            w)
      else if is_some (c.iso_date limpo)
      then stays hora_retirada (record d { data_entrega = some limpo }) ask_time e w
      else stays data_entrega d wrong_date e w

  unfoldable pub take_time : Step
  take_time texto e w = elim (c.parse_hora texto) [
    | none ↦ stays hora_retirada e.dados wrong_time e w
    | some hora ↦
        stays doces_oferta (record e.dados { horario_retirada = some hora })
          (join "" (
            "🍬 Deseja adicionar *doces* ao pedido? Responda *sim* ou *não*.\nCardápio: "
            ∷ c.doces_url ∷ []))
          e w
  ]

  unfoldable pub take_offer : Step
  unfolding strip one_of
  take_offer texto e w =
      if one_of (c.casing.lower (strip texto)) ("sim" ∷ "s" ∷ "yes" ∷ [])
      then stays doces_captura e.dados ask_doces e w
      else stays etapa_6 e.dados
          (join "" (
            "📦 Como você prefere receber?\n1\u{fe0f}⃣ Retirar na loja\n2\u{fe0f}⃣ Receber em casa (taxa de entrega: R$ "
            ∷ c.money (taxa_of e.dados.taxa_entrega)
            ∷ ")"
            ∷ []))
          e w

  unfoldable pub take_doces : Step
  unfolding parse_doces_input
  take_doces texto e w = elim (parse_doces_input c.reading texto) [
    | unknown_doce problem ↦ stays doces_captura e.dados problem e w
    | doces itens total ↦
        stays doces_tipo_forminha (record e.dados { doces_itens = itens; doces_total = total })
          ask_tipo e w
  ]

  unfoldable pub take_tipo : Step
  unfolding strip one_of contains
  take_tipo texto e w =
      let tipo = c.casing.lower (strip texto) in
      if one_of tipo ("tradicional" ∷ "pétala" ∷ "petala" ∷ [])
      then stays doces_forminha
          (record e.dados {
            doces_tipo_forminha = some (if contains "p" tipo then "Pétala" else "Tradicional");
          })
          ask_cores e w
      else stays doces_tipo_forminha e.dados wrong_tipo e w

  unfoldable pub take_forminha : Step
  take_forminha texto e w =
      let cores = cores_escolhidas (strip texto) in
      let chosen = take 4 cores in
      elim (invalidas cores) [
        | [] ↦
            stays etapa_6 (record e.dados { doces_forminha = chosen })
              (join "" (
                "✅ Doces adicionados com forminha escolhida!\nTipo: "
                ∷ tipo_or e.dados.doces_tipo_forminha
                ∷ "\nCores escolhidas: "
                ∷ join ", " chosen
                ∷ "\n\nAgora, escolha a forma de receber:\n1\u{fe0f}⃣ Retirar na loja\n2\u{fe0f}⃣ Receber em casa (taxa de entrega: R$ "
                ∷ c.money (taxa_of e.dados.taxa_entrega)
                ∷ ")"
                ∷ []))
              e w
        | cor ∷ wrong ↦
            stays doces_forminha e.dados
              (join "" (
                "⚠\u{fe0f} Cor inválida: "
                ∷ join ", " (cor ∷ wrong)
                ∷ "\nEscolha entre: "
                ∷ join ", " cores_validas
                ∷ []))
              e w
      ]
