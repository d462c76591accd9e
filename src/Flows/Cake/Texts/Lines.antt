-- ===== src/Flows/Cake/Texts/Lines.antt =====
-- What `processar_encomenda` (app/services/encomendas.py) asks about the line and the make of a cake.
use chokobot.Common.{String}

abbrev pub ask_address : String
ask_address = "📍 Informe o *endereço completo* para entrega (Rua, número, bairro):"

abbrev pub ask_massa : String
ask_massa =
    "🍰 *Monte seu bolo tradicional!*\n\n1\u{fe0f}⃣ Escolha a *massa*:\n- Branca\n- Chocolate\n- Mesclada"

abbrev pub ask_gourmet : String
ask_gourmet =
    "✨ *Linha Gourmet*\n\nEscolha o tipo de bolo:\n1\u{fe0f}⃣ Inglês (formato inglês)\n2\u{fe0f}⃣ Redondo (P6 – serve até 20 pessoas)\n\n📝 Digite *1* ou *2* para escolher."

abbrev pub ask_mesversario : String
ask_mesversario =
    "🎉 *Linha Mesversário, Personalizados e Chá Revelação!*\n\n🎂 P6 Redondo — Serve 20 pessoas — R$165\n🎂 P4 Redondo — Serve 8 pessoas — R$120\n\n📝 Digite *P6* ou *P4* para escolher o tamanho."

abbrev pub ask_babycake : String
ask_babycake =
    "🧁 *Linha Individual Baby Cake*\n\n📏 Tamanho individual (~300g)\n\nOpções de sabores:\n1\u{fe0f}⃣ Branco com Doce de Leite e Creme Mágico (chocolate branco)\n2\u{fe0f}⃣ Branco com Belga e Creme Mágico (chocolate branco)\n\n📝 Digite *1* ou *2* para escolher o sabor."

abbrev pub ask_torta : String
ask_torta =
    "🥧 *Tortas (serve 16 fatias)*\n\n• Argentina — R$130\n• Banoffee — R$130\n• Cheesecake Tradicional Versão Baixa — R$120\n• Cheesecake Tradicional Versão Alta — R$160\n• Cheesecake Pistache — R$250\n• Citrus Pie — R$150\n• Limão — R$150\n\n📷 Fotos/preços: https://keepo.io/boloschoko/\n\n📝 Digite o *nome da torta* desejada exatamente como acima:"

abbrev pub ask_simples : String
ask_simples =
    "🍰 *Linha Simples* — serve 8 fatias\n\nSabores disponíveis:\n1\u{fe0f}⃣ Chocolate\n2\u{fe0f}⃣ Cenoura\n\n📝 Digite *1* ou *2* para escolher o sabor."

abbrev pub menu_linhas : String
menu_linhas =
    "🎂 *Escolha uma linha para começar:*\n1\u{fe0f}⃣ Monte seu bolo (B3 | B4 | B6 | B7)\n2\u{fe0f}⃣ Linha Gourmet (Inglês ou Redondo P6)\n3\u{fe0f}⃣ Linha Mesversário ou Revelação\n4\u{fe0f}⃣ Linha Individual Baby Cake\n5\u{fe0f}⃣ Tortas\n6\u{fe0f}⃣ Linha Simples\n7\u{fe0f}⃣ Cestas Box"

abbrev pub wrong_massa : String
wrong_massa = "⚠\u{fe0f} Massa inválida. Escolha: Branca | Chocolate | Mesclada"

abbrev pub ask_recheio : String
ask_recheio =
    "🍫 *Escolha 1 recheio:*\n- Beijinho\n- Brigadeiro\n- Brigadeiro de Nutella\n- Brigadeiro Branco Gourmet\n- Brigadeiro Branco de Ninho\n- Casadinho (Brigadeiro Branco + Brigadeiro Preto)\n- Doce de Leite\n\n📌 *Escolha 1 mousse:*\n- Ninho\n- Trufa Branca\n- Chocolate\n- Trufa Preta\n\n📝 Envie juntos no formato: *Brigadeiro + Ninho*\n\n💡 *Observação:* O recheio *Casadinho* já combina Brigadeiro Branco e Preto — por isso, não precisa escolher mousse adicional. 😉"

abbrev pub casadinho_chosen : String
casadinho_chosen =
    "🍫 *Recheio Casadinho selecionado!*\n👉 Esse sabor já combina dois recheios (Brigadeiro Branco e Preto), por isso não precisa de mousse adicional.\n📏 Agora escolha o *tamanho* (digite):\n- B3 (serve até 15 pessoas) — R$120\n- B4 (serve até 30 pessoas) — R$180\n- B6 (serve até 50 pessoas) — R$300\n- B7 (serve até 80 pessoas) — R$380"

abbrev pub wrong_recheio : String
wrong_recheio = "⚠\u{fe0f} Envie no formato: *Brigadeiro + Ninho*"

abbrev pub ask_tamanho : String
ask_tamanho =
    "📏 *Escolha o tamanho* (digite):\n- B3 (serve até 15 pessoas) — R$120\n- B4 (serve até 30 pessoas) — R$180\n- B6 (serve até 50 pessoas) — R$300\n- B7 (serve até 80 pessoas) — R$380"

abbrev pub ask_ingles : String
ask_ingles =
    "🇬🇧 *Linha Gourmet – Formato Inglês*\n\nSabores e preços (~serve 10 pessoas):\n• Belga — R$130\n• Bolo Pudim — R$140\n• Floresta Negra — R$140\n• Língua de Gato — R$130\n• Ninho com Morango — R$140\n• Nozes com Doce de Leite — R$140\n• Olho de Sogra — R$120\n• Red Velvet — R$120\n\n📷 Fotos/preços: https://keepo.io/boloschoko/\n📝 Digite o *nome do bolo inglês* desejado exatamente como acima."

abbrev pub ask_kit : String
ask_kit =
    "🎉 Deseja adicionar o *Kit Festou* (25 brigadeiros + 1 balão personalizado 🎈) (+R$35)?\n1\u{fe0f}⃣ Sim\n2\u{fe0f}⃣ Não"

abbrev pub ask_date : String
ask_date = "📆 Informe a *data de retirada/entrega* (DD/MM/AAAA):"

abbrev pub ask_redondo : String
ask_redondo =
    "🎂 *Linha Gourmet – Redondo P6 (~serve 20 pessoas)*\n\nSabores e preços:\n• Língua de Gato de Chocolate — R$165\n• Língua de Gato de Chocolate Branco — R$165\n• Língua de Gato Branco Camafeu — R$175\n• Belga — R$180\n• Naked Cake — R$175\n• Red Velvet — R$220\n\n📷 Fotos/preços: https://keepo.io/boloschoko/\n📝 Digite o *nome do bolo redondo* desejado exatamente como acima."

abbrev pub wrong_gourmet : String
wrong_gourmet = "⚠\u{fe0f} Escolha inválida. Digite *1* (Inglês) ou *2* (Redondo)."

abbrev pub ask_adicional : String
ask_adicional =
    "🍓 Deseja adicionar *fruta ou nozes*? (tem adicional)\n\n- Morango | Ameixa | Nozes | Cereja | Abacaxi\n💡 Digite *valores* para consultar a tabela de preços por tamanho.\n\nOu digite *não* para pular."

abbrev pub wrong_ingles : String
wrong_ingles =
    "⚠\u{fe0f} Bolo não reconhecido. Tente novamente.\nSugestões: Belga, Bolo Pudim, Floresta Negra, Língua de Gato, Ninho com Morango, Nozes com Doce de Leite, Olho de Sogra, Red Velvet"
