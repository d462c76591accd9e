-- ===== src/Inbound/Run/Waiting.antt =====
-- A customer who writes while a person has the conversation. The acknowledgement is meant to be sent
-- once in fifteen minutes, and the conversation to go back to the bot thirty minutes after the
-- customer's last word. Both rest on writes to a value that the state backend handed out.
use chokobot.Handoff.{World, Effect, sent, skipped}
use chokobot.Store.{Attendance, bot, isoformat, append_conversation_message}
use chokobot.Inbound.{
  Context, shares, copies, texto, telefone, send_message, publish_skip, mutate, with_store,
}
use chokobot.Inbound.Stages.{reactivation_options, pending_ack_message}
use chokobot.Inbound.Run.{
  human_attention, attended_since, keep_waiting, should_ack, handoff_timeout, ack_interval,
}
use mathlib.Core.Path.{subst}
use chokobot.Common.{
  sym, Dict, ℕ, ◌+◌, ◌≤◌, ◌≡◌, String, false, none, some, List, ◌∷◌, arith, lookup, insert,
  lookup-insert, eq_refl, str_eq, one_of, if◌then◌else◌,
}

-- an attendance whose last contact was at `since`
abbrev pub since_of : Attendance → ℕ → Attendance
since_of a since = record a { inicio = some (isoformat since) }

-- A person has the conversation at the message `c`, since `since`, and the message does not end that.
pub record IsWaiting (c : Context) (w : World) (a : Attendance) (since : ℕ) : Type 0 where
  pub named : str_eq (telefone c) "" ≡ false
  pub held : lookup (telefone c) w.store.attendances ≡ some (since_of a since)
  pub in_time : c.message.now ≤ since + handoff_timeout
  pub stays : one_of (texto c) reactivation_options ≡ false

-- what the customer is told, and what is published
abbrev pub acknowledged : Context → List Effect → List Effect
acknowledged c es =
    skipped "handoff_active_acked"
    ∷ sent (telefone c) (c.settings.format_outgoing pending_ack_message) bot
    ∷ es

abbrev pub silenced : List Effect → List Effect
silenced es = skipped "handoff_active_silenced" ∷ es

module _ (c : Context) where
  attendances-send_message :
      (body : String) (v : World)
      → (send_message c bot body v).store.attendances ≡ v.store.attendances
  unfolding send_message append_conversation_message
  attendances-send_message body v = ground arith

  effects-send_message :
      (body : String) (v : World)
      → (send_message c bot body v).effects
        ≡ sent (telefone c) (c.settings.format_outgoing body) bot ∷ v.effects
  unfolding send_message
  effects-send_message body v = ground arith

  store-publish_skip : (motivo : String) (v : World) → (publish_skip c motivo v).store ≡ v.store
  unfolding publish_skip
  store-publish_skip motivo v = ground arith

  effects-publish_skip :
      (motivo : String) (v : World)
      → str_eq (telefone c) "" ≡ false
      → (publish_skip c motivo v).effects ≡ skipped motivo ∷ v.effects
  unfolding publish_skip
  effects-publish_skip motivo v h = ground arith

  effects-keep_waiting :
      (a : Attendance) (w : World)
      → str_eq (telefone c) "" ≡ false
      → (keep_waiting c a w).0.effects
        ≡ (if should_ack c a then acknowledged c w.effects else silenced w.effects)
  unfolding keep_waiting
  effects-keep_waiting a w named = grind (arith, effects-send_message, effects-publish_skip)

  abbrev refreshed : Attendance → Attendance
  refreshed a = record a { inicio = some (isoformat c.message.now) }

  abbrev acked : Attendance → Attendance
  acked a = record (refreshed a) { pending_ack_at = some (isoformat c.message.now) }

  abbrev write : Attendance → Dict Attendance → Dict Attendance
  write = mutate c.settings.sharing (telefone c)

  attendances-keep_waiting :
      (a : Attendance) (w : World)
      → (keep_waiting c a w).0.store.attendances ≡ (
          if should_ack c a
          then write (acked a) (write (refreshed a) w.store.attendances)
          else write (refreshed a) w.store.attendances)
  unfolding keep_waiting
  attendances-keep_waiting a w = grind (arith, attendances-send_message, store-publish_skip)

  write_copies :
      (a : Attendance) (d : Dict Attendance) → c.settings.sharing ≡ copies → write a d ≡ d
  unfolding mutate
  write_copies a d s = ground arith

  write_shares :
      (a : Attendance) (d : Dict Attendance)
      → c.settings.sharing ≡ shares
      → write a d ≡ insert (telefone c) a d
  unfolding mutate
  write_shares a d s = ground arith

  abbrev held_world : Attendance → World → World
  held_world a = with_store λ s. record s { attendances = write a s.attendances }

  human_attention-held :
      (a : Attendance) (since : ℕ) (w : World)
      → IsWaiting c w a since
      → human_attention c w ≡ keep_waiting c (since_of a since) (held_world (since_of a since) w)
  unfolding human_attention attended_since
  human_attention-held a since w waiting =
      rw (waiting.held, human_attention) (ground (arith, waiting.in_time, waiting.stays))

  -- With a backend that hands out copies, a message of a customer who waits for a person, in time and
  -- with no acknowledgement so far, is acknowledged, and every attendance is exactly what it was.
  pub human_attention_copies :
      (a : Attendance) (since : ℕ) (w : World)
      → c.settings.sharing ≡ copies
      → IsWaiting c w a since
      → a.pending_ack_at ≡ none
      → let w' = (human_attention c w).0 in
        (w'.store.attendances ≡ w.store.attendances) × (w'.effects ≡ acknowledged c w.effects)
  unfolding should_ack
  human_attention_copies a since w s waiting none_yet =
      let b = since_of a since in
      rw (human_attention-held a since w waiting) (
        grind (
          arith,
          attendances-keep_waiting b (held_world b w),
          effects-keep_waiting b (held_world b w) waiting.named,
          write_copies,
        ))

  lookup-keep_waiting_shares :
      (a : Attendance) (since : ℕ) (w : World)
      → c.settings.sharing ≡ shares
      → IsWaiting c w a since
      → a.pending_ack_at ≡ none
      → lookup (telefone c) (human_attention c w).0.store.attendances ≡ some (acked a)
  unfolding should_ack
  lookup-keep_waiting_shares a since w s waiting none_yet =
      let b = since_of a since in
      let d = insert (telefone c) (refreshed b) (insert (telefone c) b w.store.attendances) in
      rw (human_attention-held a since w waiting) (
        grind (
          arith,
          attendances-keep_waiting b (held_world b w),
          write_shares,
          eq_refl (telefone c),
          lookup-insert (telefone c) (telefone c) (acked b) d,
        ))

  effects-acknowledged :
      (a : Attendance) (since : ℕ) (w : World)
      → IsWaiting c w a since
      → a.pending_ack_at ≡ none
      → (human_attention c w).0.effects ≡ acknowledged c w.effects
  unfolding should_ack
  effects-acknowledged a since w waiting none_yet =
      let b = since_of a since in
      rw (human_attention-held a since w waiting)
        (grind (arith, effects-keep_waiting b (held_world b w) waiting.named))

-- With a backend that hands out the stored object, a message of a customer who waits for a person, in
-- time and with no acknowledgement so far, is acknowledged, and a next one of the same phone at most
-- fifteen minutes later, which does not ask for the bot, is not.
pub human_attention_shares :
    (c d : Context) (a : Attendance) (since : ℕ) (w : World)
    → c.settings.sharing ≡ shares
    → IsWaiting c w a since
    → a.pending_ack_at ≡ none
    → telefone d ≡ telefone c
    → one_of (texto d) reactivation_options ≡ false
    → d.message.now ≤ c.message.now + ack_interval
    → (human_attention d (human_attention c w).0).0.effects ≡ silenced (acknowledged c w.effects)
unfolding should_ack
human_attention_shares c d a since w s waiting none_yet same stays soon =
    let w' = (human_attention c w).0 in
    let b : Attendance = acked c a in
    let again : IsWaiting d w' b c.message.now = record {
      named = subst (λ t. str_eq t "" ≡ false) (sym same) waiting.named;
      held =
          subst (λ t. lookup t w'.store.attendances ≡ some b) (sym same)
            (lookup-keep_waiting_shares c a since w s waiting none_yet);
      in_time = omega arith;
      stays = stays;
    } in
    rw (human_attention-held d b c.message.now w' again) (
      grind (
        arith,
        effects-keep_waiting d b (held_world d b w') again.named,
        effects-acknowledged c a since w waiting none_yet,
      ))
