-- ===== src/Handoff/Duplicates.antt =====
-- Repeated handoff requests, within the process and across a reactivation of the bot.
use chokobot.Store.{read_stamp}
use chokobot.Processes.{upsert_process}
use chokobot.Handoff.{
  World, HandoffSettings, Escalation, attendance_of, handoff_upsert, activate_human_handoff,
  hand_over, announce, record_escalation_metrics, is_duplicate, is_duplicate_handoff_request,
  duplicate_window,
}
use chokobot.Common.{
  ℕ, ◌+◌, ◌≤◌, String, ◌≡◌, true, none, some, arith, Dict, insert, lookup, lookup-insert,
  lookup-remove, strip, str_eq, eq_refl, if◌then◌else◌,
}

module _ (c : HandoffSettings) (e : Escalation) where
  pub attendances-activate :
      (now : ℕ) (w : World)
      → (activate_human_handoff c e now w).store.attendances
        ≡ insert e.telefone (attendance_of c e now) w.store.attendances
  unfolding activate_human_handoff hand_over announce record_escalation_metrics
  attendances-activate now w = ground arith

  pub handoffs-activate :
      (now : ℕ) (w : World)
      → (activate_human_handoff c e now w).handoffs
        ≡ upsert_process (handoff_upsert c e (is_duplicate c e now w)) now w.handoffs
  unfolding activate_human_handoff hand_over announce record_escalation_metrics
  handoffs-activate now w = ground arith

  -- A duplicate request publishes, audits and counts nothing.
  pub effects-activate_duplicate :
      (now : ℕ) (w : World)
      → is_duplicate c e now w ≡ true
      → (activate_human_handoff c e now w).effects ≡ w.effects
  unfolding activate_human_handoff hand_over
  effects-activate_duplicate now w h = ground arith

  is_duplicate-activate :
      (now later : ℕ) (w : World)
      → later ≤ now + duplicate_window
      → is_duplicate c e later (activate_human_handoff c e now w) ≡ true
  unfolding is_duplicate is_duplicate_handoff_request read_stamp
  is_duplicate-activate now later w h =
      rw
        (
          attendances-activate now w,
          lookup-insert e.telefone e.telefone (attendance_of c e now) w.store.attendances,
          eq_refl e.telefone,
        )
        (ground (arith, eq_refl (strip e.motivo)))

  -- A request that is repeated at most ten minutes later publishes no event, writes no audit line and
  -- counts in no metric, whatever the first one did.
  pub effects-activate_again :
      (now later : ℕ) (w : World)
      → later ≤ now + duplicate_window
      → (activate_human_handoff c e later (activate_human_handoff c e now w)).effects
        ≡ (activate_human_handoff c e now w).effects
  effects-activate_again now later w h =
      effects-activate_duplicate later (activate_human_handoff c e now w)
        (is_duplicate-activate now later w h)

  -- After a handoff the phone's conversation is with a person, for the reason given and from that
  -- instant on. Every other conversation is as it was.
  lookup-attendances-activate :
      (now : ℕ) (w : World) (phone : String)
      → lookup phone (activate_human_handoff c e now w).store.attendances ≡ (
          if str_eq e.telefone phone
          then some (attendance_of c e now)
          else lookup phone w.store.attendances)
  lookup-attendances-activate now w phone =
      rw (attendances-activate now w)
        (lookup-insert e.telefone phone (attendance_of c e now) w.store.attendances)

  -- The drafts of the four order flows of the phone are gone, and those of no other phone.
  flows-activate :
      (now : ℕ) (w : World) (phone : String)
      → let s = w.store in
        let s' = (activate_human_handoff c e now w).store in
        let cleared =
          λ (d : Dict String). if str_eq e.telefone phone then none else lookup phone d in
        (lookup phone s'.estados_encomenda ≡ cleared s.estados_encomenda)
        × (lookup phone s'.estados_cafeteria ≡ cleared s.estados_cafeteria)
        × (lookup phone s'.estados_entrega ≡ cleared s.estados_entrega)
        × (lookup phone s'.estados_cestas_box ≡ cleared s.estados_cestas_box)
  unfolding activate_human_handoff hand_over announce record_escalation_metrics
  flows-activate now w phone = ground (
    arith,
    lookup-remove e.telefone phone w.store.estados_encomenda,
    lookup-remove e.telefone phone w.store.estados_cafeteria,
    lookup-remove e.telefone phone w.store.estados_entrega,
    lookup-remove e.telefone phone w.store.estados_cestas_box,
  )
