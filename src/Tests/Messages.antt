-- ===== src/Tests/Messages.antt =====
-- Messages of customers: which reach the AI, and what a customer hears who waits for a person.
use chokobot.Common.{
  ℕ, ◌≡◌, refl, true, false, none, some, String, [], ◌∷◌, arith, lookup, strip, ◌⊎◌, one_of,
}
use chokobot.Store.{Attendance, empty_store, minutes, seconds, isoformat}
use chokobot.Reasons.{falha_bot, runtime}
use chokobot.Handoff.{World}
use chokobot.Inbound.{Context, Settings, Sharing, shares, copies}
use chokobot.Inbound.Run.{process_inbound_message, human_attention}
use chokobot.Inbound.Run.Asking.{asked_count}
use chokobot.Inbound.Run.Answering.{ReachesAi, process_inbound_message-asks}
use chokobot.Inbound.Run.Waiting.{
  IsWaiting, human_attention_copies, human_attention_shares, acknowledged, silenced,
}
use chokobot.Tests.Handoffs.{calm, sao_paulo}

abbrev settings : Sharing → Settings
settings sharing = record {
  admin_phones = "5599" ∷ [];
  bot_auto_replies_enabled = true;
  phone_opt_out_auto_resume_minutes = 0;
  phone_opt_out_reactivation_delay_seconds = 0;
  store_closed = false;
  store_closed_notice = "";
  is_phone_automation_disabled = λ _. false;
  should_track_phone = λ _. true;
  sharing = sharing;
  handoff = sao_paulo;
  lower = λ t. t;
  sha1 = λ t. t;
  format_outgoing = λ t. t;
}

abbrev says : Sharing → String → String → ℕ → Context
says sharing text id now = record {
  settings = settings sharing;
  message = record {
    text = text;
    phone = "5516";
    chat_name = "Ana";
    message_id = id;
    now = now;
    sent_at = now;
    ai_window_active = true;
    deliver = λ _ _. true;
    save_customer = λ _ _. 1;
    generate_ai_reply = λ _ _ _ _ w. ("Oi, Ana!", w);
  };
}

process_inbound_message-asks_example :
    (asked_count (process_inbound_message (says copies "oi" "m1" (seconds 9)) calm).effects ≡ 0)
    ⊎ ReachesAi (says copies "oi" "m1" (seconds 9)) calm
unfolding asked_count
process_inbound_message-asks_example =
    process_inbound_message-asks (says copies "oi" "m1" (seconds 9)) calm

abbrev held : Attendance
held = record {
  inicio = some (isoformat 0);
  audit_at = some (isoformat 0);
  pending_ack_at = none;
  nome = "Ana";
  motivo = "painel";
  categoria = falha_bot;
  origem = runtime;
  contexto_resumo = "";
  proximo_passo = "";
}

abbrev waiting : World
waiting = record calm { store = record empty_store { attendances = ("5516", held) ∷ [] } }

abbrev first_word : Sharing → Context
first_word sharing = says sharing "alguém aí?" "m2" (minutes 1)

first_word-IsWaiting : (sharing : Sharing) → IsWaiting (first_word sharing) waiting held 0
unfolding lookup one_of strip
first_word-IsWaiting sharing = record {
  named = refl;
  held = refl;
  in_time = omega arith;
  stays = refl;
}

human_attention_copies_example :
    (human_attention (first_word copies) waiting).0.effects ≡ acknowledged (first_word copies) []
human_attention_copies_example =
    (human_attention_copies (first_word copies) held 0 waiting refl (first_word-IsWaiting copies)
      refl).1

human_attention_shares_example :
    (human_attention
      (says shares "oi?" "m3" (minutes 5))
      (human_attention (first_word shares) waiting).0).0.effects
    ≡ silenced (acknowledged (first_word shares) [])
unfolding one_of strip
human_attention_shares_example =
    human_attention_shares (first_word shares) (says shares "oi?" "m3" (minutes 5)) held 0 waiting
      refl (first_word-IsWaiting shares) refl refl refl (omega arith)
