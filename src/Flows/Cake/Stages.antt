-- ===== src/Flows/Cake/Stages.antt =====
-- The steps of `processar_encomenda` (app/services/encomendas.py): `estado["etapa"]`, whose numbers are
-- written out, and `dados["subetapa"]`.
pub data Etapa : Type 0 where
  etapa_1 etapa_2 etapa_3 etapa_4 etapa_5 etapa_6 gourmet_tipo gourmet_ingles gourmet_kit gourmet
        gourmet_redondo mesversario babycake babycake_frase simples simples_cobertura data_entrega
        hora_retirada doces_oferta doces_captura doces_tipo_forminha doces_forminha
        ajustar_hora_entrega pronta_item pronta_kit pronta_data pronta_hora confirmar_pedido
        pagamento_forma pagamento_troco :
      Etapa

pub data Subetapa : Type 0 where
  tamanho massa recheio mousse sabor : Subetapa
