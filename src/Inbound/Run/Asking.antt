-- ===== src/Inbound/Run/Asking.antt =====
-- The AI is asked only behind every test of `process_inbound_message`, and at most once.
use chokobot.Handoff.{World, Effect, asked_ai, deactivate_human_handoff}
use chokobot.Store.{Attendance, Role, bot}
use chokobot.Inbound.{
  Context, Stage, ◌⨟◌, telefone, send_message, publish_skip, claim_message, record_client_message,
}
use chokobot.Inbound.Stages.{
  admin_commands, auto_replies_off, bot_disabled, ai_schedule_off, incomplete_message,
  untouched_phones, opted_out, opt_out_command, duplicate_webhook, duplicate_content, store_closed,
  reactivated_message,
}
use chokobot.Inbound.Run.{
  gates, before_ai, human_attention, attended_since, with_inicio, keep_waiting, back_to_bot,
}
use chokobot.Common.{
  ℕ, suc, ◌≡◌, refl, String, inl, inr, Option, none, some, List, [], ◌∷◌, arith, lookup,
  Option-cases,
}

-- How often the AI was asked.
unfoldable pub asked_count : List Effect → ℕ
asked_count [] = 0
asked_count (asked_ai text ∷ es) = suc (asked_count es)
asked_count (_ ∷ es) = asked_count es

-- A stage that does not ask the AI.
abbrev IsQuiet : Stage → Type 0
IsQuiet f = (w : World) → asked_count (f w).0.effects ≡ asked_count w.effects

IsQuiet-⨟ : (f g : Stage) → IsQuiet f → IsQuiet g → IsQuiet (f ⨟ g)
unfolding ◌⨟◌
IsQuiet-⨟ f g qf qg w = ground (arith, qf w, qg (f w).0)

module _ (c : Context) where
  asked_count-send_message :
      (role : Role) (body : String) (w : World)
      → asked_count (send_message c role body w).effects ≡ asked_count w.effects
  unfolding send_message asked_count
  asked_count-send_message role body w = ground arith

  asked_count-publish_skip :
      (motivo : String) (w : World)
      → asked_count (publish_skip c motivo w).effects ≡ asked_count w.effects
  unfolding publish_skip asked_count
  asked_count-publish_skip motivo w = ground arith

  effects-claim_message : (w : World) → (claim_message c w).1.effects ≡ w.effects
  unfolding claim_message
  effects-claim_message w = ground arith

  effects-record_client_message : (w : World) → (record_client_message c w).effects ≡ w.effects
  unfolding record_client_message
  effects-record_client_message w = refl

  ruleset quiet_laws = (
    arith, asked_count-send_message, asked_count-publish_skip, effects-claim_message,
    effects-record_client_message,
  )

  admin_commands-IsQuiet : IsQuiet (admin_commands c)
  unfolding admin_commands
  admin_commands-IsQuiet w = grind quiet_laws

  auto_replies_off-IsQuiet : IsQuiet (auto_replies_off c)
  unfolding auto_replies_off asked_count
  auto_replies_off-IsQuiet w = grind quiet_laws

  bot_disabled-IsQuiet : IsQuiet (bot_disabled c)
  unfolding bot_disabled
  bot_disabled-IsQuiet w = grind quiet_laws

  ai_schedule_off-IsQuiet : IsQuiet (ai_schedule_off c)
  unfolding ai_schedule_off asked_count
  ai_schedule_off-IsQuiet w = grind quiet_laws

  incomplete_message-IsQuiet : IsQuiet (incomplete_message c)
  unfolding incomplete_message
  incomplete_message-IsQuiet w = grind quiet_laws

  untouched_phones-IsQuiet : IsQuiet (untouched_phones c)
  unfolding untouched_phones
  untouched_phones-IsQuiet w = grind quiet_laws

  opted_out-IsQuiet : IsQuiet (opted_out c)
  unfolding opted_out asked_count
  opted_out-IsQuiet w = grind quiet_laws

  opt_out_command-IsQuiet : IsQuiet (opt_out_command c)
  unfolding opt_out_command
  opt_out_command-IsQuiet w = grind quiet_laws

  duplicate_webhook-IsQuiet : IsQuiet (duplicate_webhook c)
  unfolding duplicate_webhook
  duplicate_webhook-IsQuiet w = grind quiet_laws

  duplicate_content-IsQuiet : IsQuiet (duplicate_content c)
  unfolding duplicate_content asked_count
  duplicate_content-IsQuiet w = grind quiet_laws

  store_closed-IsQuiet : IsQuiet (store_closed c)
  unfolding store_closed
  store_closed-IsQuiet w = grind quiet_laws

  back_to_bot-IsQuiet : (w : World) → asked_count (back_to_bot c w).effects ≡ asked_count w.effects
  unfolding deactivate_human_handoff
  back_to_bot-IsQuiet w =
      asked_count-send_message bot reactivated_message
        (deactivate_human_handoff (telefone c) c.message.now w).1

  keep_waiting-IsQuiet : (a : Attendance) → IsQuiet (keep_waiting c a)
  unfolding keep_waiting
  keep_waiting-IsQuiet a w = grind quiet_laws

  attended_since-IsQuiet : (a : Attendance) (o : Option ℕ) → IsQuiet (attended_since c a o)
  unfolding attended_since asked_count
  attended_since-IsQuiet a none w = refl
  attended_since-IsQuiet a (some t) w =
      ground (arith, back_to_bot-IsQuiet w, keep_waiting-IsQuiet a w)

  human_attention-IsQuiet : IsQuiet (human_attention c)
  unfolding human_attention
  human_attention-IsQuiet w = elim (Option-cases (lookup (telefone c) w.store.attendances)) [
    | inl absent ↦ rw (absent, human_attention)
    | inr (a, held) ↦ rw (held, human_attention) (attended_since-IsQuiet (with_inicio c a) _ _)
  ]

  pub before_ai-IsQuiet : IsQuiet (before_ai c)
  unfolding before_ai gates
  before_ai-IsQuiet =
      IsQuiet-⨟ _ _
        (IsQuiet-⨟ _ _ admin_commands-IsQuiet (
          IsQuiet-⨟ _ _ auto_replies_off-IsQuiet (
            IsQuiet-⨟ _ _ bot_disabled-IsQuiet (
              IsQuiet-⨟ _ _ ai_schedule_off-IsQuiet (
                IsQuiet-⨟ _ _ incomplete_message-IsQuiet (
                  IsQuiet-⨟ _ _ untouched_phones-IsQuiet
                    (IsQuiet-⨟ _ _ opted_out-IsQuiet opt_out_command-IsQuiet)))))))
        (IsQuiet-⨟ _ _ duplicate_webhook-IsQuiet (
          IsQuiet-⨟ _ _ duplicate_content-IsQuiet
            (IsQuiet-⨟ _ _ store_closed-IsQuiet human_attention-IsQuiet)))
