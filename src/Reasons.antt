-- ===== src/Reasons.antt =====
-- How a handoff's reason is classified: `_classify_escalation_category`, `_resolve_escalation_source`
-- and `_failure_topic_from_reason` of app/application/use_cases/manage_human_handoff.py. The text
-- that `_normalize_text` makes of a reason (Unicode decomposition and case folding) is the argument.
use chokobot.Common.{contains, String, Bool, true, false, ◌||◌, List, [], ◌∷◌, if◌then◌else◌}

-- `any(token in text for token in tokens)`
unfoldable pub contains_any : List String → String → Bool
unfolding contains
contains_any [] text = false
contains_any (token ∷ tokens) text = contains token text || contains_any tokens text

pub data Category : Type 0 where
  cliente_solicitou produto_fora_escopo pedido_personalizado pos_venda pagamento_nao_suportado :
      Category
  entrega_fora_pitangueiras campanha_encerrada campanha_ativa_dia_das_maes falha_bot : Category
  spam_fora_contexto assumido_painel : Category

pub data Origin : Type 0 where
  painel ai runtime : Origin

pub data Topic : Type 0 where
  fora_contexto pix pascoa catalogo_visual presentes doces cafeteria bolos geral : Topic

unfoldable pub resolve_escalation_source : String → Origin
resolve_escalation_source text =
    if contains "painel" text
    then painel
    else if contains_any ("cliente" ∷ "humano" ∷ []) text
    then ai
    else runtime

abbrev panel_tokens : List String
panel_tokens = "assumido_pelo_painel" ∷ "assumido pelo painel" ∷ []

abbrev customer_tokens : List String
customer_tokens = "cliente pediu humano" ∷ "solicitado pelo cliente" ∷ "falar com humano" ∷ []

abbrev spam_tokens : List String
spam_tokens = "spam" ∷ "teste" ∷ "flood" ∷ "ruido" ∷ []

abbrev payment_tokens : List String
payment_tokens =
    "pluxee" ∷ "sodexo" ∷ "alelo" ∷ "ticket" ∷ "vale-refeicao" ∷ "vale refeicao"
    ∷ "vale alimentacao" ∷ "caju" ∷ "swile" ∷ []

abbrev delivery_tokens : List String
delivery_tokens = "fora de pitangueiras" ∷ "bituva" ∷ "outro bairro" ∷ "entrega fora" ∷ []

abbrev mothers_day_tokens : List String
mothers_day_tokens =
    "dia das maes" ∷ "dia das mae" ∷ "dia da mae" ∷ "presente para mae" ∷ "presente pra mae" ∷ []

abbrev campaign_tokens : List String
campaign_tokens = "pascoa fora de epoca" ∷ "campanha encerrou" ∷ "campanha encerrada" ∷ []

abbrev after_sale_tokens : List String
after_sale_tokens =
    "status do pedido" ∷ "cancelar pedido" ∷ "alterar a data" ∷ "alterar data" ∷ "reagendar"
    ∷ "alterar entrega" ∷ []

abbrev custom_tokens : List String
custom_tokens =
    "cesta de cafe" ∷ "cesta personalizada" ∷ "personalizar" ∷ "frase no balao" ∷ "frase "
    ∷ "doacao" ∷ "doaçao" ∷ []

abbrev scope_tokens : List String
scope_tokens =
    "fora de contexto" ∷ "fora de escopo" ∷ "produto fora" ∷ "nao encontrado"
    ∷ "ovos pronta entrega" ∷ "pronta entrega exige atendimento humano" ∷ []

-- The last two tests of the source both give `produto_fora_escopo`; here they are one.
unfoldable pub classify_escalation_category : String → Category
classify_escalation_category text =
    if contains_any panel_tokens text
    then assumido_painel
    else if contains_any customer_tokens text
    then cliente_solicitou
    else if contains_any spam_tokens text
    then spam_fora_contexto
    else if contains_any payment_tokens text
    then pagamento_nao_suportado
    else if contains_any delivery_tokens text
    then entrega_fora_pitangueiras
    else if contains_any mothers_day_tokens text
    then campanha_ativa_dia_das_maes
    else if contains_any campaign_tokens text
    then campanha_encerrada
    else if contains_any after_sale_tokens text
    then pos_venda
    else if contains_any custom_tokens text
    then pedido_personalizado
    else if contains_any scope_tokens text
    then produto_fora_escopo
    else falha_bot

-- `categoria in {"produto_fora_escopo", "falha_bot", "spam_fora_contexto"}`
unfoldable pub is_knowledge_failure : Category → Bool
is_knowledge_failure produto_fora_escopo = true
is_knowledge_failure falha_bot = true
is_knowledge_failure spam_fora_contexto = true
is_knowledge_failure _ = false

topic_of_text : String → Topic
topic_of_text text =
    if contains "pix" text
    then pix
    else if contains "pascoa" text
    then pascoa
    else if contains_any ("foto" ∷ "imagem" ∷ "catalogo" ∷ []) text
    then catalogo_visual
    else if contains_any ("cesta" ∷ "presente" ∷ "flores" ∷ "caixinha" ∷ []) text
    then presentes
    else if contains_any ("doces" ∷ "brigadeiro" ∷ "bombom" ∷ []) text
    then doces
    else if contains_any ("combo" ∷ "cafeteria" ∷ "croissant" ∷ "capuccino" ∷ "cappuccino" ∷ [])
        text
    then cafeteria
    else if contains "bolo" text
    then bolos
    else geral

unfoldable pub failure_topic_from_reason : String → Category → Topic
unfolding topic_of_text
failure_topic_from_reason text spam_fora_contexto = fora_contexto
failure_topic_from_reason text _ = topic_of_text text
