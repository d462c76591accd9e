-- ===== src/Inbound/Run/Answering.antt =====
-- What holds when `process_inbound_message` asks the AI.
use chokobot.Handoff.{World, saved_customer, emit}
use chokobot.Store.{
  Attendance, set_recent_message, set_phone_opted_out, get_recent_message,
  mark_processed_message_if_new, has_processed_message, mark_processed_message, read_stamp,
  append_conversation_message,
}
use chokobot.Inbound.{
  Context, ◌⨟◌, texto, telefone, nome_cliente, with_store, claim_message, record_client_message,
}
use chokobot.Inbound.Stages.{duplicate_webhook, duplicate_content, store_closed, repeats_recent}
use chokobot.Inbound.Run.{
  before_ai, process_inbound_message, human_attention, attended, attended_since, with_inicio,
  handoff_timeout,
}
use chokobot.Inbound.Run.Gates.{GoesOn, GoesOn-⨟, PassesGates, gates-PassesGates, resumed}
use chokobot.Inbound.Run.Asking.{asked_count, before_ai-IsQuiet}
use mathlib.Core.Path.{subst}
use chokobot.Common.{
  Dict, ℕ, ◌+◌, ◌<◌, ◌≡◌, refl, ◌∙◌, true, false, ◌⊎◌, inl, inr, Option, none, some, arith, lookup,
  Bool-cases,
}

module _ (c : Context) where
  -- The conversation is with the bot, or the person's time has run out.
  abbrev pub IsFreeIn : Dict Attendance → Type 0
  IsFreeIn d =
      (lookup (telefone c) d ≡ none)
      ⊎ ((a : Attendance) × (since : ℕ) × (lookup (telefone c) d ≡ some a)
          × (read_stamp (with_inicio c a).inicio ≡ some since)
          × (since + handoff_timeout < c.message.now))

  abbrev pub IsFree : World → Type 0
  IsFree w = IsFreeIn w.store.attendances

  abbrev recorded : World → World
  recorded w = emit (saved_customer (telefone c) (nome_cliente c)) (
      record_client_message c
        (with_store (set_recent_message (telefone c) (texto c) c.message.now) w))

  duplicate_webhook-GoesOn :
      (w : World)
      → GoesOn (duplicate_webhook c) w ((claim_message c w).0 ≡ true) (claim_message c w).1
  unfolding duplicate_webhook
  duplicate_webhook-GoesOn w h = ground arith

  duplicate_content-GoesOn :
      (w : World)
      → GoesOn
          (duplicate_content c)
          w
          (repeats_recent c (get_recent_message (telefone c) w.store) ≡ false)
          (recorded w)
  unfolding duplicate_content
  duplicate_content-GoesOn w h = ground arith

  store_closed-GoesOn : (w : World) → GoesOn (store_closed c) w (c.settings.store_closed ≡ false) w
  unfolding store_closed
  store_closed-GoesOn w h = ground arith

  attended_since-free :
      (a : Attendance) (o : Option ℕ) (w : World)
      → (attended_since c a o w).1 ≡ true
      → (since : ℕ) × (o ≡ some since) × (since + handoff_timeout < c.message.now)
  unfolding attended_since
  attended_since-free a none w h = absurd (cc h)
  attended_since-free a (some since) w h = (since, refl, ground arith)

  attended-free :
      (o : Option Attendance) (w : World)
      → (attended c o w).1 ≡ true
      → (o ≡ none)
        ⊎ ((a : Attendance) × (since : ℕ) × (o ≡ some a)
            × (read_stamp (with_inicio c a).inicio ≡ some since)
            × (since + handoff_timeout < c.message.now))
  unfolding attended
  attended-free none w h = inl refl
  attended-free (some a) w h =
      let (since, read, late) =
        attended_since-free (with_inicio c a) (read_stamp (with_inicio c a).inicio) _ h in
      inr (a, since, refl, read, late)

  human_attention-GoesOn :
      (w : World) → GoesOn (human_attention c) w (IsFree w) (human_attention c w).0
  unfolding human_attention
  human_attention-GoesOn w h = (attended-free (lookup (telefone c) w.store.attendances) w h, refl)

  recent-claim_message :
      (w : World)
      → get_recent_message (telefone c) (claim_message c w).1.store
        ≡ get_recent_message (telefone c) w.store
  unfolding claim_message mark_processed_message_if_new has_processed_message mark_processed_message
      get_recent_message
  recent-claim_message w = ground arith

  attendances-claim_message :
      (w : World) → (claim_message c w).1.store.attendances ≡ w.store.attendances
  unfolding claim_message mark_processed_message_if_new has_processed_message mark_processed_message
  attendances-claim_message w = ground arith

  attendances-recorded : (w : World) → (recorded w).store.attendances ≡ w.store.attendances
  unfolding record_client_message append_conversation_message set_recent_message
  attendances-recorded w = ground arith

  recent-resumed :
      (w : World)
      → get_recent_message (telefone c) (resumed c w).store
        ≡ get_recent_message (telefone c) w.store
  unfolding set_phone_opted_out get_recent_message
  recent-resumed w = ground arith

  attendances-resumed : (w : World) → (resumed c w).store.attendances ≡ w.store.attendances
  unfolding set_phone_opted_out
  attendances-resumed w = ground arith

-- All that has to hold for a message to reach the AI.
pub record ReachesAi (c : Context) (w : World) : Type 0 where
  pub gates : PassesGates c w
  pub claimed : (claim_message c (resumed c w)).0 ≡ true
  pub fresh : repeats_recent c (get_recent_message (telefone c) w.store) ≡ false
  pub open_store : c.settings.store_closed ≡ false
  pub free : IsFree c w

module _ (c : Context) where
  before_ai-ReachesAi : (w : World) → (before_ai c w).1 ≡ true → ReachesAi c w
  unfolding before_ai
  before_ai-ReachesAi w h =
      let claimed = (claim_message c (resumed c w)).1 in
      let passed =
        (GoesOn-⨟ _ _ w (resumed c w) (human_attention c (recorded c claimed)).0
          (gates-PassesGates c w)
          (GoesOn-⨟ _ _ (resumed c w) claimed _ (duplicate_webhook-GoesOn c (resumed c w)) (
            GoesOn-⨟ _ _ claimed (recorded c claimed) _ (duplicate_content-GoesOn c claimed) (
              GoesOn-⨟ _ _ (recorded c claimed) (recorded c claimed) _ (store_closed-GoesOn c _)
                (human_attention-GoesOn c _))))
          h).0 in
      let same_recent = recent-claim_message c (resumed c w) ∙ recent-resumed c w in
      let same_attendances =
        attendances-recorded c claimed
        ∙ (attendances-claim_message c (resumed c w) ∙ attendances-resumed c w) in
      record {
        gates = passed.0;
        claimed = passed.1.0;
        fresh = subst (λ o. repeats_recent c o ≡ false) same_recent passed.1.1.0;
        open_store = passed.1.1.1.0;
        free = subst (IsFreeIn c) same_attendances passed.1.1.1.1;
      }

  -- Either the message does not reach the AI, or it has passed every test: it is no command by which an
  -- admin phone switches the bot; the bot answers by itself, is active and within its schedule; the message has a phone and a text; the phone is neither
  -- blocked, nor a test phone, nor silent (but for a silence that is over), nor asks for silence; the
  -- message is new, and not a repetition within two seconds; the store is open; and the conversation
  -- is with the bot, or with a person for whom the customer has waited more than thirty minutes.
  pub process_inbound_message-asks :
      (w : World)
      → (asked_count (process_inbound_message c w).effects ≡ asked_count w.effects) ⊎ ReachesAi c w
  unfolding process_inbound_message ◌⨟◌
  process_inbound_message-asks w = elim (Bool-cases (before_ai c w).1) [
    | inl on ↦ inr (before_ai-ReachesAi w on)
    | inr off ↦ inl (rw (off, process_inbound_message, ◌⨟◌) (before_ai-IsQuiet c w))
  ]
