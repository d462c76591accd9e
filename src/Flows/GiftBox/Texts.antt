-- ===== src/Flows/GiftBox/Texts.antt =====
-- The gift boxes of the catalogue, and the texts that `process_cesta_box_flow` sends.
use Prim.Native.String.{◌++◌ as ◌<>◌}
use chokobot.Flows.GiftBox.{
  Modo, Forma, Cesta, Dados, Surroundings, or_zero, or_blank, preco_of, valor_total, retirada,
  entrega, pix, cartao, dinheiro,
}
use chokobot.Common.{ℕ, String, Option, none, some, List, [], ◌∷◌, str_eq, ◌==◌, if◌then◌else◌}

-- an f-string writes None for an entry that is missing
abbrev pub or_none : Option String → String
or_none none = "None"
or_none (some s) = s

abbrev pub nome_of : Option Cesta → Option String
nome_of none = none
nome_of (some b) = some b.nome

abbrev descricao_of : Option Cesta → Option String
descricao_of none = none
descricao_of (some b) = some b.descricao

abbrev modo_txt : Option Modo → String
modo_txt (some retirada) = "🏪 Retirada na loja"
modo_txt (some entrega) = "🚚 Entrega em casa"
modo_txt none = "🚚 Entrega em casa"

-- CESTAS_BOX_CATALOGO
abbrev pub catalogue : List Cesta
catalogue =
    record {
      numero = "1";
      nome = "BOX P CHOCOLATES";
      preco = 9990;
      descricao = "2 trufas, 1 chokobom, 1 cake, 6 bombons, 1 tablete de chocolate";
    }
    ∷ record {
      numero = "2";
      nome = "BOX P CHOCOLATES (com Balão)";
      preco = 11990;
      descricao =
          "2 trufas, 1 chokobom, 1 cake, 6 bombons, 1 tablete de chocolate, Balão Personalizado";
    }
    ∷ record {
      numero = "3";
      nome = "BOX M CHOCOLATES";
      preco = 14990;
      descricao = "3 trufas, 2 chokobons, 2 cakes, 6 bombons, 1 tablete de chocolate";
    }
    ∷ record {
      numero = "4";
      nome = "BOX M CHOCOLATES BALÃO";
      preco = 18990;
      descricao =
          "3 trufas, 2 chokobons, 2 cakes, 6 bombons, 1 tablete de chocolate, Balão Personalizado";
    }
    ∷ record {
      numero = "5";
      nome = "BOX M CAFÉ";
      preco = 17990;
      descricao =
          "5 bombons, 1 tablete de chocolate, 1 pote cheesecake, 1 pão de queijo, 1 croissant, 1 suco natural, Bolachinhas, 1 cappuccino em pó";
    }
    ∷ record {
      numero = "6";
      nome = "BOX M CAFÉ BALÃO";
      preco = 21990;
      descricao =
          "5 bombons, 1 tablete de chocolate, 1 pote cheesecake, 1 pão de queijo, 1 croissant, 1 suco natural, Bolachinhas, 1 cappuccino em pó, Balão Personalizado";
    }
    ∷ []

unfoldable pub find_cesta : String → List Cesta → Option Cesta
find_cesta escolha [] = none
find_cesta escolha (b ∷ bs) = if str_eq escolha b.numero then some b else find_cesta escolha bs

-- the texts of the menu of boxes, of the times for deliveries, and of the forms of payment
abbrev pub delivery_too_late : String
delivery_too_late =
    "🚚 As entregas são realizadas até as *17:30*.\nInforme um horário até *17:30* para entrega."

abbrev pub payment_menu : String
payment_menu =
    "💳 *Forma de pagamento*\n1\u{fe0f}⃣ PIX\n2\u{fe0f}⃣ Cartão (débito/crédito)\n3\u{fe0f}⃣ Dinheiro"

abbrev pub how_to_receive : String
how_to_receive =
    "📍 Como você deseja receber?\n1\u{fe0f}⃣ Retirada na loja\n2\u{fe0f}⃣ Entrega em casa (taxa: R$10,00)"

abbrev pub ask_change : String
ask_change =
    "💸 Você escolheu *dinheiro*.\nPara facilitar, me diga: *troco para quanto?*\nExemplos: 50, 100, 200."

abbrev pub could_not_confirm : String
could_not_confirm =
    "⚠\u{fe0f} Nao consegui confirmar o pedido agora. Pode tentar novamente em instantes?"

abbrev pub forma_name : Forma → String
forma_name pix = "PIX"
forma_name cartao = "Cartão"
forma_name dinheiro = "Dinheiro"

module _ (c : Surroundings) where
  unfoldable pub menu_lines : List Cesta → String
  menu_lines [] = "\n📝 Digite o *número da cesta* desejada:"
  menu_lines (b ∷ bs) =
      b.numero <> (". " <> (b.nome <> (" — R$" <> (c.money b.preco <> ("\n" <> menu_lines bs)))))

  abbrev pub menu_cestas : String
  menu_cestas = "🎁 *Cestas Box Café ou Chocolate*\n\n" <> menu_lines catalogue

  -- `montar_resumo_e_confirmar`
  unfoldable pub resumo : Dados → String
  unfolding valor_total
  resumo d =
      let endereco_txt =
        if str_eq (or_blank d.destino) "" then "" else "\n📍 Endereço: " <> or_blank d.destino in
      let taxa_txt =
        if or_zero d.taxa_entrega == 0
        then ""
        else "Taxa de entrega: R$" <> (c.money (or_zero d.taxa_entrega) <> "\n") in
      "✅ *Resumo do seu pedido*\n\n🎁 *Cesta*: "
      <> (or_none (nome_of d.cesta)
          <> ("\nR$"
              <> (c.money (preco_of d.cesta)
                  <> ("\n\n📋 *Detalhes*:\n"
                      <> (or_none (descricao_of d.cesta)
                          <> ("\n\n📅 *Data*: "
                              <> (or_none d.data_agendada
                                  <> ("\n⏰ *Horário*: "
                                      <> (or_none d.horario
                                          <> ("\n"
                                              <> (modo_txt d.modo
                                                  <> (endereco_txt
                                                      <> ("\n\n———\n"
                                                          <> (taxa_txt
                                                            <> ("*Total: R$"
                                                            <> (c.money (valor_total d)
                                                            <> "*\n———\n\nTudo correto?\n1\u{fe0f}⃣ Confirmar pedido\n2\u{fe0f}⃣ Corrigir"))))))))))))))))

  -- the message that confirms an order
  unfoldable pub confirmation : ℕ → Dados → String
  confirmation id d =
      "✅ *Pedido confirmado com sucesso!* ✅\nID: #"
      <> (c.write_id id
          <> ("\nCesta: "
              <> (or_none (nome_of d.cesta)
                  <> ("\nData: "
                      <> (or_none d.data_agendada
                          <> ("\nHorário: "
                              <> (or_none d.horario
                                  <> ("\n\n💰 *Total: R$"
                                      <> (c.money (valor_total d)
                                          <> "*\n\nObrigada por sua compra! 🎁\n✨ Se registrar o momento nas redes sociais, lembre de nos marcar @chokodelicia")))))))))
