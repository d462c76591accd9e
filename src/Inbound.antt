-- ===== src/Inbound.antt =====
-- `process_inbound_message` (app/application/use_cases/process_inbound_message.py): what happens to a
-- message of a customer. Each early return of the source ends a stage here; the stages follow one
-- another in its order, and the rest of them runs only where a stage goes on. Logging is left out.
pub mod Stages
pub mod Run
use chokobot.Handoff.{World, Effect, HandoffSettings, sent, skipped, slept, emit}
use chokobot.Store.{
  Store, Role, cliente, bot, ia, append_conversation_message, mark_processed_message_if_new,
}
use chokobot.Common.{
  ℕ, String, Bool, true, false, not, ◌&&◌, Option, none, some, List, [], ◌∷◌, Dict, insert, strip,
  str_eq, one_of, if◌then◌else◌,
}

-- How the state backend hands out its values. A `dict` of the memory backend is the stored object;
-- the SQLite and the Redis backend decode a new one at each read.
pub data Sharing : Type 0 where
  shares copies : Sharing

pub record Settings : Type 0 where
  pub admin_phones : List String
  pub bot_auto_replies_enabled : Bool
  pub phone_opt_out_auto_resume_minutes : ℕ
  pub phone_opt_out_reactivation_delay_seconds : ℕ
  pub store_closed : Bool
  pub store_closed_notice : String
  pub is_phone_automation_disabled : String → Bool
  pub should_track_phone : String → Bool
  pub sharing : Sharing
  pub handoff : HandoffSettings
  -- `str.lower`, `hashlib.sha1(…).hexdigest()`, and the rewriting of an outgoing text by
  -- `_sanitize_internal_agent_payload` and `formatar_mensagem_saida`
  pub lower : String → String
  pub sha1 : String → String
  pub format_outgoing : String → String

-- The normalised message, with what the surroundings answer while it is processed: the clock (and
-- the server's clock, by which sent messages are recorded), the automatic schedule, the gateway, the
-- customer repository and the AI, which may change the world while it makes a reply.
pub record Inbound : Type 0 where
  pub text : String
  pub phone : String
  pub chat_name : String
  pub message_id : String
  pub now : ℕ
  pub sent_at : ℕ
  pub ai_window_active : Bool
  pub deliver : String → String → Bool
  pub save_customer : String → String → ℕ
  pub generate_ai_reply : String → String → String → ℕ → World → String × World

-- What the stages read.
pub record Context : Type 0 where
  pub settings : Settings
  pub message : Inbound

abbrev pub texto : Context → String
texto c =
    if str_eq c.message.text "" then c.message.text else strip (c.settings.lower c.message.text)

abbrev pub telefone : Context → String
telefone c = c.message.phone

abbrev pub nome_cliente : Context → String
nome_cliente c = if str_eq c.message.chat_name "" then "Nome não informado" else c.message.chat_name

-- A stage returns the world after it, and whether the processing goes on.
abbrev pub Stage : Type 0
Stage = World → World × Bool

abbrev pub returns : World → World × Bool
returns w = (w, false)

abbrev pub goes_on : World → World × Bool
goes_on w = (w, true)

infixr 5 ◌⨟◌
unfoldable pub ◌⨟◌ : Stage → Stage → Stage
◌⨟◌ f g w = let (w', more) = f w in if more then g w' else (w', false)

abbrev pub with_store : (Store → Store) → World → World
with_store f w = record w { store = f w.store }

abbrev label_of : Role → String
label_of ia = "IA"
label_of _ = "Bot"

-- `_send_message`, by way of `responder_usuario_com_contexto`
-- (app/utils/mensagens.py): a delivered message is recorded in its thread.
unfoldable pub send_message : Context → Role → String → World → World
send_message c role body w =
    let formatted = c.settings.format_outgoing body in
    let handed = emit (sent (telefone c) formatted role) w in
    if c.message.deliver (telefone c) formatted
    then with_store
        (append_conversation_message (telefone c) role (label_of role) formatted c.message.sent_at)
        handed
    else handed

unfoldable pub publish_skip : Context → String → World → World
publish_skip c motivo w = if str_eq (telefone c) "" then w else emit (skipped motivo) w

-- `not msg_id or mark_processed_message_if_new(…)`, with the store after it
unfoldable pub claim_message : Context → World → Bool × World
claim_message c w =
    if str_eq c.message.message_id ""
    then (true, w)
    else let (new, store) =
        mark_processed_message_if_new c.message.message_id c.message.now 60 w.store in
      (new, record w { store = store })

unfoldable pub record_client_message : Context → World → World
record_client_message c =
    with_store
      (append_conversation_message (telefone c) cliente (nome_cliente c) (texto c) c.message.now)

-- `estados_atendimento[telefone][…] = …` on the value that the backend handed out
unfoldable pub mutate {ℓ} : {V : Type ℓ} → Sharing → String → V → Dict V → Dict V
mutate shares key value d = insert key value d
mutate copies key value d = d
