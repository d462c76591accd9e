-- ===== src/Inbound/Stages.antt =====
-- The stages of `process_inbound_message`, up to the one that lets a person or the AI answer.
use chokobot.Handoff.{World, slept, emit, saved_customer}
use chokobot.Store.{
  RecentMessage, bot, minutes, seconds, read_stamp, is_bot_ativo, set_bot_ativo, is_phone_opted_out,
  set_phone_opted_out, get_phone_opted_out_updated_at, get_recent_message, set_recent_message,
}
use chokobot.Inbound.{
  Context, Stage, texto, telefone, nome_cliente, returns, goes_on, with_store, send_message,
  publish_skip, claim_message, record_client_message,
}
use chokobot.Common.{
  ℕ, ◌+◌, String, Bool, true, false, ◌&&◌, ◌||◌, Option, none, some, List, [], ◌∷◌, str_eq, one_of,
  leb, ltb, if◌then◌else◌,
}

abbrev pub disable_commands : List String
disable_commands = "desativar bot" ∷ "desligar bot" ∷ "pausar bot" ∷ []

abbrev pub enable_commands : List String
enable_commands = "ativar bot" ∷ "ligar bot" ∷ "reativar bot" ∷ []

abbrev pub reactivation_options : List String
reactivation_options =
    "voltar" ∷ "menu" ∷ "bot" ∷ "reativar" ∷ "voltar ao bot" ∷ "ativar chat" ∷ "ativar bot" ∷ []

abbrev pub opt_out_commands : List String
opt_out_commands =
    "desativar chat" ∷ "desativar bot" ∷ "desligar chat" ∷ "desligar bot" ∷ "pausar chat"
    ∷ "pausar bot" ∷ []

-- The texts that are sent; the last three are constants of app/welcome_message.py.
abbrev pub bot_disabled_message : String
bot_disabled_message = "🚫 Bot desativado temporariamente."

abbrev pub bot_enabled_message : String
bot_enabled_message = "✅ Bot reativado e pronto para atender!"

abbrev pub media_message : String
media_message =
    "Recebi sua mídia, mas ainda não consigo abrir áudios, fotos ou stickers por aqui 😊 Me conta em texto o que você está procurando?"

abbrev pub reactivated_message : String
reactivated_message = "A Trufinha voltou por aqui 😊\nMe conta o que você está procurando."

abbrev pub opt_out_message : String
opt_out_message =
    "Tudo bem! O chat foi pausado. Quando quiser voltar, é só mandar \"voltar\" ou \"menu\" 😊"

abbrev pub pending_ack_message : String
pending_ack_message =
    "Recebi sua mensagem 💛 A equipe já está com seu atendimento — assim que possível alguém retorna por aqui."

module _ (c : Context) where
  unfoldable pub admin_commands : Stage
  admin_commands w =
      if one_of (telefone c) c.settings.admin_phones
      then if one_of (c.settings.lower (texto c)) disable_commands
        then returns (send_message c bot bot_disabled_message (with_store (set_bot_ativo false) w))
        else if one_of (c.settings.lower (texto c)) enable_commands
        then returns (send_message c bot bot_enabled_message (with_store (set_bot_ativo true) w))
        else goes_on w
      else goes_on w

  -- a message is only recorded, with its customer
  unfoldable pub record_only : World → World
  record_only w = emit (saved_customer (telefone c) (nome_cliente c)) (record_client_message c w)

  unfoldable pub record_if_new : World → World
  unfolding record_only
  record_if_new w = let (new, w') = claim_message c w in if new then record_only w' else w'

  unfoldable pub auto_replies_off : Stage
  unfolding record_if_new
  auto_replies_off w =
      if c.settings.bot_auto_replies_enabled
      then goes_on w
      else if str_eq (telefone c) "" || str_eq (texto c) ""
      then returns w
      else if c.settings.should_track_phone (telefone c)
      then returns (record_if_new w)
      else returns w

  unfoldable pub bot_disabled : Stage
  bot_disabled w =
      if is_bot_ativo w.store then goes_on w else returns (publish_skip c "bot_disabled" w)

  -- A repeated message ends here with no event; any other is recorded if it has a phone and a text.
  unfoldable pub ai_schedule_off : Stage
  unfolding record_only
  ai_schedule_off w =
      let (new, w') = claim_message c w in
      if c.message.ai_window_active
      then goes_on w
      else if str_eq (telefone c) "" || str_eq (texto c) ""
      then returns (publish_skip c "ai_schedule_off" w)
      else if new
      then returns (publish_skip c "ai_schedule_off" (record_only w'))
      else returns w'

  unfoldable pub incomplete_message : Stage
  incomplete_message w =
      if str_eq (telefone c) ""
      then returns (publish_skip c "incomplete_message" w)
      else if str_eq (texto c) ""
      then returns
          (publish_skip c "media_without_text_replied" (send_message c bot media_message w))
      else goes_on w

  unfoldable pub untouched_phones : Stage
  untouched_phones w =
      if c.settings.is_phone_automation_disabled (telefone c)
      then returns (publish_skip c "phone_automation_disabled" w)
      else if c.settings.should_track_phone (telefone c)
      then goes_on w
      else returns (publish_skip c "phone_not_tracked" w)

  -- whether the phone's silence is old enough to end by itself
  unfoldable pub silence_is_over : ℕ → Option ℕ → Bool
  silence_is_over now none = false
  silence_is_over now (some since) =
      ltb 0 c.settings.phone_opt_out_auto_resume_minutes
      && leb (since + minutes c.settings.phone_opt_out_auto_resume_minutes) now

  unfoldable pub pause_before_reactivation : World → World
  pause_before_reactivation w =
      if ltb 0 c.settings.phone_opt_out_reactivation_delay_seconds
      then emit (slept c.settings.phone_opt_out_reactivation_delay_seconds) w
      else w

  unfoldable pub opted_out : Stage
  unfolding silence_is_over pause_before_reactivation
  opted_out w =
      let spoken_again = with_store (set_phone_opted_out (telefone c) false c.message.now) w in
      if is_phone_opted_out (telefone c) w.store
      then if silence_is_over c.message.now (get_phone_opted_out_updated_at (telefone c) w.store)
        then goes_on spoken_again
        else if one_of (texto c) reactivation_options
        then returns
            (send_message c bot reactivated_message (pause_before_reactivation spoken_again))
        else returns (publish_skip c "phone_opt_out" w)
      else goes_on w

  unfoldable pub opt_out_command : Stage
  opt_out_command w =
      if one_of (texto c) opt_out_commands
      then returns (
          send_message c bot opt_out_message
            (with_store (set_phone_opted_out (telefone c) true c.message.now) w))
      else goes_on w

  unfoldable pub duplicate_webhook : Stage
  duplicate_webhook w =
      let (new, w') = claim_message c w in
      if new then goes_on w' else returns (publish_skip c "duplicate_webhook" w')

  -- the same text from the same phone less than two seconds before
  unfoldable pub repeats_recent : Option RecentMessage → Bool
  unfolding read_stamp
  repeats_recent none = false
  repeats_recent (some m) =
      str_eq m.texto (texto c)
      && elim (read_stamp m.hora) [ none ↦ false | some t ↦ ltb c.message.now (t + seconds 2) ]

  unfoldable pub duplicate_content : Stage
  unfolding repeats_recent
  duplicate_content w =
      if repeats_recent (get_recent_message (telefone c) w.store)
      then returns w
      else goes_on (
          emit (saved_customer (telefone c) (nome_cliente c)) (
            record_client_message c
              (with_store (set_recent_message (telefone c) (texto c) c.message.now) w)))

  unfoldable pub store_closed : Stage
  store_closed w =
      if c.settings.store_closed
      then returns
          (publish_skip c "store_closed" (send_message c bot c.settings.store_closed_notice w))
      else goes_on w
