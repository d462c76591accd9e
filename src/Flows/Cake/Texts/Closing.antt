-- ===== src/Flows/Cake/Texts/Closing.antt =====
-- What `processar_encomenda` (app/services/encomendas.py) asks from the lines for parties on: dates,
-- sweets, the way of receiving, the confirmation and the payment.
use chokobot.Common.{String}

abbrev pub wrong_p4_p6 : String
wrong_p4_p6 = "⚠\u{fe0f} Tamanho inválido. Digite *P4* ou *P6*."

abbrev pub ask_party_massa : String
ask_party_massa = "🍰 *Escolha a massa:*\n- Branca\n- Chocolate"

abbrev pub wrong_party_massa : String
wrong_party_massa = "⚠\u{fe0f} Massa inválida. Escolha: Branca | Chocolate"

abbrev pub ask_party_recheio : String
ask_party_recheio =
    "🍫 *Escolha o recheio (envie o nome completo):*\n- Brigadeiro com Ninho\n- Brigadeiro de Nutella com Ninho\n- Brigadeiro e Beijinho\n- Brigadeiro Branco com Brigadeiro Preto (Casadinho)\n- Brigadeiro Branco Gourmet com Ninho\n- Brigadeiro Branco de Ninho com Ninho\n- Beijinho com Ninho\n- Doce de Leite e Brigadeiro\n- Doce de Leite com Ninho"

abbrev pub ask_mousse : String
ask_mousse = "🍫 Deseja trocar o *Ninho por Mousse de Chocolate*?\nDigite *sim* ou *não*."

abbrev pub ask_party_date : String
ask_party_date = "📆 Informe a *data da festa* (DD/MM/AAAA):"

abbrev pub wrong_sabor : String
wrong_sabor = "⚠\u{fe0f} Opção inválida. Digite *1* ou *2*."

abbrev pub ask_frase : String
ask_frase =
    "✍\u{fe0f} Deseja adicionar uma *frase personalizada* no bolo?\nExemplo: 'Feliz Aniversário!' ou 'Te amo, mãe!'\nSe não quiser, digite *não*."

abbrev pub ask_delivery_date : String
ask_delivery_date = "📆 Informe a *data de entrega* (DD/MM/AAAA):"

abbrev pub wrong_simples : String
wrong_simples = "⚠\u{fe0f} Escolha inválida. Digite *1* (Chocolate) ou *2* (Cenoura)."

abbrev pub ask_cobertura : String
ask_cobertura =
    "🍫 Escolha a *cobertura*:\n1\u{fe0f}⃣ Vulcão — R$35\n2\u{fe0f}⃣ Simples — R$25\n\n📝 Digite *1* ou *2* para escolher."

abbrev pub wrong_cobertura : String
wrong_cobertura = "⚠\u{fe0f} Escolha inválida. Digite *1* (Vulcão) ou *2* (Simples)."

abbrev pub ask_simples_date : String
ask_simples_date = "📅 Informe a *data de retirada/entrega* (DD/MM/AAAA):"

abbrev pub is_correct_or_not : String
is_correct_or_not = "Está tudo correto?\n1\u{fe0f}⃣ Confirmar pedido\n2\u{fe0f}⃣ Corrigir"

abbrev pub ask_time : String
ask_time = "⏰ Informe o *horário de retirada/entrega* (HH:MM ou 24h):"

abbrev pub wrong_date : String
wrong_date = "⚠\u{fe0f} Data inválida. Use o formato *DD/MM/AAAA*."

abbrev pub wrong_time : String
wrong_time = "⚠\u{fe0f} Hora inválida. Use o formato *HH:MM* (24h)."

abbrev pub ask_doces : String
ask_doces =
    "Envie os doces (pode mandar vários itens em linhas separadas).\nEx.:\nBrigadeiro de Ninho x25\nBombom Prestígio x30"

abbrev pub ask_tipo : String
ask_tipo = "🎀 Deseja forminha *Tradicional* ou *Pétala*?"

abbrev pub wrong_tipo : String
wrong_tipo = "⚠\u{fe0f} Tipo inválido. Escolha: *Tradicional* ou *Pétala*."

abbrev pub ask_cores : String
ask_cores =
    "🎨 Escolha a *cor da forminha* dos doces:\n- Marrom, Amarelo, Azul Claro, Azul Escuro\n- Verde Claro, Verde Escuro, Rosa Claro, Pink\n- Laranja, Lilás, Preto ou Branco"

abbrev pub is_correct : String
is_correct =
    "Está tudo correto?\n1\u{fe0f}⃣ Confirmar pedido\n2\u{fe0f}⃣ Corrigir\n3\u{fe0f}⃣ Falar com atendente"

abbrev pub wrong_b3_b4 : String
wrong_b3_b4 = "⚠\u{fe0f} Opção inválida. Digite *B3* ou *B4* (pode mandar só 3 / 4)."

abbrev pub ask_pronta_kit : String
ask_pronta_kit =
    "🎉 Deseja adicionar o *Kit Festou(25 brigadeiros + 1 Balão 🎈 personalizado)* (+R$35)?\n1\u{fe0f}⃣ Sim\n2\u{fe0f}⃣ Não"

abbrev pub ask_pickup_date : String
ask_pickup_date = "📆 Informe a *data de retirada* (DD/MM/AAAA):"

abbrev pub nothing_to_confirm : String
nothing_to_confirm = "Não encontrei o pedido para confirmar. Vamos recomeçar do início. 🙂"

abbrev pub could_not_confirm : String
could_not_confirm =
    "⚠\u{fe0f} Nao consegui confirmar seu pedido agora. Pode tentar novamente em instantes?"

abbrev pub confirmed : String
confirmed =
    "Pedido confirmado com sucesso ✅\nObrigada por encomendar com a *Choko* ❤\n✨ Se registrar o momento nas redes sociais, lembre de nos marcar @chokodelicia"

abbrev pub start_again : String
start_again = "Sem problema! Vamos refazer a montagem do pedido. 😊"

abbrev pub menu_again : String
menu_again =
    "🎂 *Escolha uma linha para começar:*\n1\u{fe0f}⃣ Monte seu bolo (B3 | B4 | B6 | B7)\n2\u{fe0f}⃣ Linha Gourmet (Inglês ou Redondo P6)\n3\u{fe0f}⃣ Linha Mesversário ou Revelação\n4\u{fe0f}⃣ Linha Individual Baby Cake\n5\u{fe0f}⃣ Tortas"

abbrev pub confirm_or_correct : String
confirm_or_correct = "Responda com:\n1\u{fe0f}⃣ Confirmar pedido\n2\u{fe0f}⃣ Corrigir"

abbrev pub confirm_question : String
confirm_question = "Confirma o pedido?\n1\u{fe0f}⃣ Sim\n2\u{fe0f}⃣ Corrigir"

abbrev pub wrong_amount : String
wrong_amount = "Valor inválido. Informe apenas números. Exemplo: 50 ou 100."

abbrev pub msg_escolher_forma : String
msg_escolher_forma =
    "💳 *Forma de pagamento*\n1\u{fe0f}⃣ PIX\n2\u{fe0f}⃣ Cartão (débito/crédito)\n3\u{fe0f}⃣ Dinheiro\n\nDigite *1*, *2* ou *3*."

abbrev pub msg_pedir_troco : String
msg_pedir_troco =
    "💸 Você escolheu *dinheiro*.\nPara facilitar, me diga: *troco para quanto?*\nExemplos: 50, 100, 200."
