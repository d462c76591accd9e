-- ===== src/Inbound/Run/Gates.antt =====
-- When the AI is asked for a reply: only behind every gate of `process_inbound_message`.
use chokobot.Handoff.{World}
use chokobot.Store.{
  is_bot_ativo, is_phone_opted_out, set_phone_opted_out, get_phone_opted_out_updated_at,
}
use chokobot.Inbound.{Context, Stage, ◌⨟◌, texto, telefone, with_store}
use chokobot.Inbound.Stages.{
  admin_commands, auto_replies_off, bot_disabled, ai_schedule_off, incomplete_message,
  untouched_phones, silence_is_over, opted_out, opt_out_command, opt_out_commands, disable_commands,
  enable_commands,
}
use chokobot.Inbound.Run.{gates}
use chokobot.Common.{
  ◌≡◌, Bool, true, false, ◌&&◌, ◌||◌, ◌⊎◌, inl, inr, arith, str_eq, one_of, if◌then◌else◌,
  Bool-cases,
}

-- a command of an admin phone, which switches the bot off or on
abbrev pub is_command : Context → Bool
is_command c =
    one_of (telefone c) c.settings.admin_phones
    && (one_of (c.settings.lower (texto c)) disable_commands
        || one_of (c.settings.lower (texto c)) enable_commands)

-- What has to hold before a message is claimed for the AI.
pub record PassesGates (c : Context) (w : World) : Type 0 where
  pub not_commanding : is_command c ≡ false
  pub automatic : c.settings.bot_auto_replies_enabled ≡ true
  pub active : is_bot_ativo w.store ≡ true
  pub in_window : c.message.ai_window_active ≡ true
  pub has_phone : str_eq (telefone c) "" ≡ false
  pub has_text : str_eq (texto c) "" ≡ false
  pub enabled : c.settings.is_phone_automation_disabled (telefone c) ≡ false
  pub tracked : c.settings.should_track_phone (telefone c) ≡ true
  pub speaking :
      (is_phone_opted_out (telefone c) w.store ≡ false)
      ⊎ (silence_is_over c c.message.now (get_phone_opted_out_updated_at (telefone c) w.store)
          ≡ true)
  pub not_opting_out : one_of (texto c) opt_out_commands ≡ false

-- Where `f` goes on from `w`, `P` holds and the world is `v`.
abbrev pub GoesOn : Stage → World → Type 0 → World → Type 0
GoesOn f w P v = (f w).1 ≡ true → P × ((f w).0 ≡ v)

-- Stages in sequence go on where each does.
pub GoesOn-⨟ :
    (f g : Stage) (w v u : World) {P Q : Type 0}
    → GoesOn f w P v
    → GoesOn g v Q u
    → GoesOn (f ⨟ g) w (P × Q) u
unfolding ◌⨟◌
GoesOn-⨟ f g w v u hf hg h = elim (Bool-cases (f w).1) [
  | inl on ↦
      let (p, same) = hf on in
      let (q, end) = hg (rw (on, same, ◌⨟◌) at h) in ((p, q), rw (on, same, ◌⨟◌) end)
  | inr off ↦ absurd (cc (rw (off, ◌⨟◌) at h))
]

module _ (c : Context) where
  -- the world behind the gates: an old silence has been ended, and nothing else has changed
  abbrev pub resumed : World → World
  resumed w =
      if is_phone_opted_out (telefone c) w.store
      then with_store (set_phone_opted_out (telefone c) false c.message.now) w
      else w

  admin_commands-GoesOn : (w : World) → GoesOn (admin_commands c) w (is_command c ≡ false) w
  unfolding admin_commands
  admin_commands-GoesOn w h = ground arith

  auto_replies_off-GoesOn :
      (w : World) → GoesOn (auto_replies_off c) w (c.settings.bot_auto_replies_enabled ≡ true) w
  unfolding auto_replies_off
  auto_replies_off-GoesOn w h = ground arith

  bot_disabled-GoesOn : (w : World) → GoesOn (bot_disabled c) w (is_bot_ativo w.store ≡ true) w
  unfolding bot_disabled
  bot_disabled-GoesOn w h = ground arith

  ai_schedule_off-GoesOn :
      (w : World) → GoesOn (ai_schedule_off c) w (c.message.ai_window_active ≡ true) w
  unfolding ai_schedule_off
  ai_schedule_off-GoesOn w h = ground arith

  incomplete_message-GoesOn :
      (w : World)
      → GoesOn
          (incomplete_message c)
          w
          ((str_eq (telefone c) "" ≡ false) × (str_eq (texto c) "" ≡ false))
          w
  unfolding incomplete_message
  incomplete_message-GoesOn w h = ground arith

  untouched_phones-GoesOn :
      (w : World)
      → GoesOn
          (untouched_phones c)
          w
          ((c.settings.is_phone_automation_disabled (telefone c) ≡ false)
            × (c.settings.should_track_phone (telefone c) ≡ true))
          w
  unfolding untouched_phones
  untouched_phones-GoesOn w h = ground arith

  abbrev IsSpeaking : World → Type 0
  IsSpeaking w =
      (is_phone_opted_out (telefone c) w.store ≡ false)
      ⊎ (silence_is_over c c.message.now (get_phone_opted_out_updated_at (telefone c) w.store)
          ≡ true)

  opted_out-GoesOn : (w : World) → GoesOn (opted_out c) w (IsSpeaking w) (resumed w)
  unfolding opted_out
  opted_out-GoesOn w h = ground arith

  opt_out_command-GoesOn :
      (w : World) → GoesOn (opt_out_command c) w (one_of (texto c) opt_out_commands ≡ false) w
  unfolding opt_out_command
  opt_out_command-GoesOn w h = ground arith

  -- The gates let a message through only where all of these hold, and then the world behind them is
  -- the one before, but that a silence which is over has been ended.
  pub gates-PassesGates :
      (w : World) → (gates c w).1 ≡ true → PassesGates c w × ((gates c w).0 ≡ resumed w)
  unfolding gates
  gates-PassesGates w h =
      let (passed, same) =
        GoesOn-⨟ _ _ w w (resumed w) (admin_commands-GoesOn w)
          (GoesOn-⨟ _ _ w w (resumed w) (auto_replies_off-GoesOn w) (
            GoesOn-⨟ _ _ w w (resumed w) (bot_disabled-GoesOn w) (
              GoesOn-⨟ _ _ w w (resumed w) (ai_schedule_off-GoesOn w) (
                GoesOn-⨟ _ _ w w (resumed w) (incomplete_message-GoesOn w) (
                  GoesOn-⨟ _ _ w w (resumed w) (untouched_phones-GoesOn w) (
                    GoesOn-⨟ _ _ w (resumed w) (resumed w) (opted_out-GoesOn w)
                      (opt_out_command-GoesOn (resumed w))))))))
          h in
      let behind_text = passed.1.1.1.1 in
      let behind_phone = behind_text.1 in
      (
        record {
          not_commanding = passed.0;
          automatic = passed.1.0;
          active = passed.1.1.0;
          in_window = passed.1.1.1.0;
          has_phone = behind_text.0.0;
          has_text = behind_text.0.1;
          enabled = behind_phone.0.0;
          tracked = behind_phone.0.1;
          speaking = behind_phone.1.0;
          not_opting_out = behind_phone.1.1;
        },
        same,
      )
