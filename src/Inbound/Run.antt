-- ===== src/Inbound/Run.antt =====
-- The last stages of `process_inbound_message`, and the whole of it.
pub mod Gates
pub mod Asking
pub mod Answering
pub mod Waiting
use chokobot.Handoff.{World, sent, replied, emit, asked_ai, failed, deactivate_human_handoff}
use chokobot.Store.{
  Store, Attendance, RecentReply, Stamp, bot, ia, isoformat, minutes, seconds, read_stamp,
  get_recent_bot_reply, set_recent_bot_reply,
}
use chokobot.Inbound.{
  Settings, Inbound, Context, Stage, ◌⨟◌, texto, telefone, nome_cliente, returns, goes_on,
  with_store, send_message, publish_skip, mutate,
}
use chokobot.Inbound.Stages.{
  admin_commands, auto_replies_off, bot_disabled, ai_schedule_off, incomplete_message,
  untouched_phones, opted_out, opt_out_command, duplicate_webhook, duplicate_content, store_closed,
  reactivation_options, reactivated_message, pending_ack_message,
}
use chokobot.Common.{
  ℕ, ◌+◌, String, Bool, true, false, ◌&&◌, Option, none, some, Dict, lookup, strip, str_eq, one_of,
  leb, ltb, if◌then◌else◌,
}

-- how long a handoff lasts without a word of the customer, and how long one acknowledgement serves
abbrev pub handoff_timeout : ℕ
handoff_timeout = minutes 30

abbrev pub ack_interval : ℕ
ack_interval = minutes 15

module _ (c : Context) where
  abbrev put_attendance : Attendance → World → World
  put_attendance a =
      with_store
        λ s. record s { attendances = mutate c.settings.sharing (telefone c) a s.attendances }

  abbrev pub back_to_bot : World → World
  back_to_bot w =
      send_message c bot reactivated_message
        (deactivate_human_handoff (telefone c) c.message.now w).1

  -- `ack_sent_at is None or (agora - ack_sent_at) > timedelta(minutes=15)`
  unfoldable pub should_ack : Attendance → Bool
  unfolding read_stamp
  should_ack a = elim (read_stamp a.pending_ack_at) [
    | none ↦ true
    | some t ↦ ltb (t + ack_interval) c.message.now
  ]

  -- The customer writes while a person has the conversation.
  unfoldable pub keep_waiting : Attendance → Stage
  unfolding should_ack
  keep_waiting a w =
      let refreshed : Attendance = record a { inicio = some (isoformat c.message.now) } in
      let acked : Attendance = record refreshed {
        pending_ack_at = some (isoformat c.message.now);
      } in
      if should_ack a
      then returns (
          publish_skip c "handoff_active_acked" (
            send_message c bot pending_ack_message
              (put_attendance acked (put_attendance refreshed w))))
      else returns (publish_skip c "handoff_active_silenced" (put_attendance refreshed w))

  -- `since` is the last contact: the text of `inicio`, which the source parses with no guard.
  unfoldable pub attended_since : Attendance → Option ℕ → Stage
  unfolding keep_waiting
  attended_since a none w = returns (emit (failed "ValueError") w)
  attended_since a (some since) w =
      if ltb (since + handoff_timeout) c.message.now
      then goes_on (back_to_bot w)
      else if one_of (texto c) reactivation_options
      then returns (back_to_bot w)
      else keep_waiting a w

  -- `if "inicio" not in estado: estado["inicio"] = …`
  abbrev pub with_inicio : Attendance → Attendance
  with_inicio a = record a {
    inicio = elim a.inicio [ none ↦ some (isoformat c.message.now) | some s ↦ some s ];
  }

  unfoldable pub attended : Option Attendance → Stage
  unfolding attended_since read_stamp
  attended none w = goes_on w
  attended (some a) w =
      attended_since (with_inicio a) (read_stamp (with_inicio a).inicio)
        (put_attendance (with_inicio a) w)

  unfoldable pub human_attention : Stage
  unfolding attended
  human_attention w = attended (lookup (telefone c) w.store.attendances) w

  -- the same reply to the same phone at most ten seconds before
  unfoldable pub repeats_reply : String → Option RecentReply → Bool
  unfolding read_stamp
  repeats_reply hash none = false
  repeats_reply hash (some r) =
      str_eq r.hash hash
      && elim (read_stamp r.hora) [ none ↦ false | some t ↦ leb c.message.now (t + seconds 10) ]

  unfoldable pub send_reply : String → World → World
  send_reply resposta w =
      let hash = c.settings.sha1 (strip resposta) in
      if repeats_reply hash (get_recent_bot_reply (telefone c) w.store)
      then publish_skip c "duplicate_ai_reply" w
      else send_message c ia resposta (
          emit (replied resposta)
            (with_store (set_recent_bot_reply (telefone c) hash c.message.now) w))

  unfoldable pub ai_reply : Stage
  unfolding send_reply
  ai_reply w =
      let cliente_id = c.message.save_customer (telefone c) (nome_cliente c) in
      let (resposta, w') =
        c.message.generate_ai_reply (telefone c) (texto c) (nome_cliente c) cliente_id
          (emit (asked_ai (texto c)) w) in
      returns (send_reply resposta w')

  -- the stages that stand before the message is claimed
  unfoldable pub gates : Stage
  gates =
      admin_commands c
      ⨟ auto_replies_off c
      ⨟ bot_disabled c
      ⨟ ai_schedule_off c
      ⨟ incomplete_message c
      ⨟ untouched_phones c
      ⨟ opted_out c
      ⨟ opt_out_command c

  -- all that stands before the AI
  unfoldable pub before_ai : Stage
  before_ai = gates ⨟ duplicate_webhook c ⨟ duplicate_content c ⨟ store_closed c ⨟ human_attention

  unfoldable pub process_inbound_message : World → World
  process_inbound_message w = ((before_ai ⨟ ai_reply) w).0
