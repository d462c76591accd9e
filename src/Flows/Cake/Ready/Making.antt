-- ===== src/Flows/Cake/Ready/Making.antt =====
-- That each answer on the line, the make, the date and the sweets of a cake keeps what its step needs.
use chokobot.Flows.Cake.{Dados, Estado, CakeWorld, Surroundings}
use chokobot.Flows.Cake.Stages
use chokobot.Flows.Cake.Stages.{
  etapa_1, etapa_2, etapa_3, etapa_4, etapa_5, gourmet_tipo, gourmet_ingles, gourmet_kit, gourmet,
  gourmet_redondo, mesversario, babycake, babycake_frase, simples, simples_cobertura, data_entrega,
  hora_retirada, doces_oferta, doces_captura, doces_tipo_forminha, doces_forminha, pronta_item,
  pronta_kit, pronta_data,
}
use chokobot.Flows.Cake.Lines.{
  take_linha, take_massa, take_recheio, take_tamanho, take_adicional, take_gourmet_tipo,
  take_ingles, take_kit, take_produto,
}
use chokobot.Flows.Cake.Parties.{
  take_mesversario, take_party_tamanho, take_party_massa, take_party_recheio, take_mousse,
  take_babycake, take_baby_sabor, take_frase, take_simples, take_cobertura,
}
use chokobot.Flows.Cake.Dates.{
  take_date, take_time, take_offer, take_doces, take_tipo, take_forminha,
}
use chokobot.Flows.Cake.ReadyMade.{take_pronta_item, take_pronta_kit, take_pronta_data}
use chokobot.Flows.Cake.Receiving.{is_party}
use chokobot.Flows.Cake.Ready.{is_ready, stays_ready, is_dated, is_unpaid, has_party_size}
use chokobot.Common.{Bool, not, ◌&&◌, String, ◌≡◌, true, arith, some, one_of}

abbrev is_party_open : Dados → Bool
is_party_open d = is_unpaid d && (is_party d.linha && not d.kit_festou)

module _ (c : Surroundings) (texto : String) (e : Estado) (w : CakeWorld) where
  pub take_linha-ready :
      is_ready c etapa_1 e.dados ≡ true → stays_ready c (take_linha c texto e w).1 ≡ true
  unfolding is_ready take_linha
  take_linha-ready h = ground arith

  pub take_massa-ready :
      is_ready c etapa_2 e.dados ≡ true → stays_ready c (take_massa c texto e w).1 ≡ true
  unfolding is_ready take_massa
  take_massa-ready h = ground arith

  pub take_recheio-ready :
      is_ready c etapa_3 e.dados ≡ true → stays_ready c (take_recheio c texto e w).1 ≡ true
  unfolding is_ready take_recheio
  take_recheio-ready h = ground arith

  pub take_tamanho-ready :
      is_ready c etapa_4 e.dados ≡ true → stays_ready c (take_tamanho c texto e w).1 ≡ true
  unfolding is_ready take_tamanho
  take_tamanho-ready h = ground arith

  pub take_adicional-ready :
      is_ready c etapa_5 e.dados ≡ true → stays_ready c (take_adicional c texto e w).1 ≡ true
  unfolding is_ready take_adicional
  take_adicional-ready h = ground arith

  pub take_gourmet_tipo-ready :
      is_ready c gourmet_tipo e.dados ≡ true
      → stays_ready c (take_gourmet_tipo c texto e w).1 ≡ true
  unfolding is_ready take_gourmet_tipo
  take_gourmet_tipo-ready h = ground arith

  pub take_ingles-ready :
      is_ready c gourmet_ingles e.dados ≡ true → stays_ready c (take_ingles c texto e w).1 ≡ true
  unfolding is_ready take_ingles
  take_ingles-ready h = ground arith

  pub take_kit-ready :
      is_ready c gourmet_kit e.dados ≡ true → stays_ready c (take_kit c texto e w).1 ≡ true
  unfolding is_ready take_kit
  take_kit-ready h = ground arith

  take_party_tamanho-ready :
      is_party_open e.dados ≡ true
      → e.dados.subetapa ≡ some Stages.tamanho
      → stays_ready c (take_party_tamanho c texto e w).1 ≡ true
  unfolding is_ready take_party_tamanho one_of
  take_party_tamanho-ready h s = ground arith

  take_party_massa-ready :
      is_party_open e.dados ≡ true
      → has_party_size e.dados.tamanho ≡ true
      → stays_ready c (take_party_massa c texto e w).1 ≡ true
  unfolding is_ready take_party_massa
  take_party_massa-ready h s = ground arith

  take_party_recheio-ready :
      is_party_open e.dados ≡ true
      → has_party_size e.dados.tamanho ≡ true
      → stays_ready c (take_party_recheio c texto e w).1 ≡ true
  unfolding is_ready take_party_recheio
  take_party_recheio-ready h s = ground arith

  take_mousse-ready :
      is_party_open e.dados ≡ true
      → has_party_size e.dados.tamanho ≡ true
      → stays_ready c (take_mousse c texto e w).1 ≡ true
  unfolding is_ready take_mousse
  take_mousse-ready h s = ground arith

  pub take_mesversario-ready :
      e.etapa ≡ mesversario
      → is_ready c mesversario e.dados ≡ true
      → stays_ready c (take_mesversario c texto e w).1 ≡ true
  unfolding is_ready take_mesversario
  take_mesversario-ready at h = grind (
    arith, at, take_party_tamanho-ready, take_party_massa-ready, take_party_recheio-ready,
    take_mousse-ready,
  )

  pub take_babycake-ready :
      e.etapa ≡ babycake
      → is_ready c babycake e.dados ≡ true
      → stays_ready c (take_babycake c texto e w).1 ≡ true
  unfolding is_ready take_babycake take_baby_sabor
  take_babycake-ready at h = rw at (ground arith)

  pub take_frase-ready :
      is_ready c babycake_frase e.dados ≡ true → stays_ready c (take_frase c texto e w).1 ≡ true
  unfolding is_ready take_frase
  take_frase-ready h = ground arith

  pub take_simples-ready :
      is_ready c simples e.dados ≡ true → stays_ready c (take_simples c texto e w).1 ≡ true
  unfolding is_ready take_simples
  take_simples-ready h = ground arith

  pub take_cobertura-ready :
      is_ready c simples_cobertura e.dados ≡ true
      → stays_ready c (take_cobertura c texto e w).1 ≡ true
  unfolding is_ready take_cobertura
  take_cobertura-ready h = ground arith

  pub take_time-ready :
      is_ready c hora_retirada e.dados ≡ true → stays_ready c (take_time c texto e w).1 ≡ true
  unfolding is_ready take_time
  take_time-ready h = ground arith

  pub take_offer-ready :
      is_ready c doces_oferta e.dados ≡ true → stays_ready c (take_offer c texto e w).1 ≡ true
  unfolding is_ready take_offer
  take_offer-ready h = ground arith

  pub take_doces-ready :
      is_ready c doces_captura e.dados ≡ true → stays_ready c (take_doces c texto e w).1 ≡ true
  unfolding is_ready take_doces
  take_doces-ready h = ground arith

  pub take_tipo-ready :
      is_ready c doces_tipo_forminha e.dados ≡ true → stays_ready c (take_tipo c texto e w).1 ≡ true
  unfolding is_ready take_tipo
  take_tipo-ready h = ground arith

  pub take_forminha-ready :
      is_ready c doces_forminha e.dados ≡ true → stays_ready c (take_forminha c texto e w).1 ≡ true
  unfolding is_ready take_forminha
  take_forminha-ready h = ground arith

  pub take_pronta_item-ready :
      is_ready c pronta_item e.dados ≡ true → stays_ready c (take_pronta_item c texto e w).1 ≡ true
  unfolding is_ready take_pronta_item
  take_pronta_item-ready h = ground arith

  pub take_pronta_kit-ready :
      is_ready c pronta_kit e.dados ≡ true → stays_ready c (take_pronta_kit c texto e w).1 ≡ true
  unfolding is_ready take_pronta_kit
  take_pronta_kit-ready h = ground arith

  pub take_pronta_data-ready :
      is_ready c pronta_data e.dados ≡ true → stays_ready c (take_pronta_data c texto e w).1 ≡ true
  unfolding is_ready take_pronta_data
  take_pronta_data-ready h = ground arith

  pub take_produto-gourmet :
      is_ready c gourmet e.dados ≡ true → stays_ready c (take_produto c gourmet texto e w).1 ≡ true
  unfolding is_ready take_produto
  take_produto-gourmet h = ground arith

  pub take_produto-gourmet_redondo :
      is_ready c gourmet_redondo e.dados ≡ true
      → stays_ready c (take_produto c gourmet_redondo texto e w).1 ≡ true
  unfolding is_ready take_produto
  take_produto-gourmet_redondo h = ground arith

  pub take_date-ready :
      is_dated c (some c.tomorrow) ≡ true
      → is_ready c data_entrega e.dados ≡ true
      → stays_ready c (take_date c texto e w).1 ≡ true
  unfolding is_ready take_date
  take_date-ready later h = ground arith
