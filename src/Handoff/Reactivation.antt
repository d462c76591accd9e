-- ===== src/Handoff/Reactivation.antt =====
-- Giving the conversation back to the bot, and what the table of processes remembers of it.
use chokobot.Processes.{Process, get_process, new_row, merge_row, current_timestamp}
use chokobot.Processes.Laws.{get_process-upsert_process, written}
use chokobot.Handoff.{
  World, HandoffPayload, HandoffSettings, Escalation, handoff_upsert, resolve_upsert,
  activate_human_handoff, deactivate_human_handoff, is_duplicate, is_duplicate_handoff_request,
  persisted_window, is_recent_persisted_handoff,
}
use chokobot.Handoff.Duplicates.{handoffs-activate}
use chokobot.Common.{
  ℕ, ◌+◌, String, ◌≡◌, refl, none, some, arith, lookup, lookup-remove, has_key, leb, strip, str_eq,
  eq_iff, eq_refl, if◌then◌else◌,
}

-- The conversation of the phone is with the bot again, every other is as it was, and the answer is
-- whether a person had it.
lookup-attendances-deactivate :
    (telefone phone : String) (now : ℕ) (w : World)
    → let (existed, w') = deactivate_human_handoff telefone now w in
      (existed ≡ has_key telefone w.store.attendances)
      × (lookup phone w'.store.attendances
          ≡ (if str_eq telefone phone then none else lookup phone w.store.attendances))
unfolding deactivate_human_handoff
lookup-attendances-deactivate telefone phone now w =
    (refl, lookup-remove telefone phone w.store.attendances)

get_process-deactivate :
    (telefone : String) (now : ℕ) (w : World) (p : Process HandoffPayload)
    → get_process telefone "human_handoff" w.handoffs ≡ some p
    → get_process telefone "human_handoff" (deactivate_human_handoff telefone now w).1.handoffs
      ≡ some (
          merge_row p (
            new_row w.handoffs.next_id w.handoffs.is_customer w.handoffs.is_order
              (resolve_upsert telefone now p)
              now))
unfolding deactivate_human_handoff
get_process-deactivate telefone now w p h = ground (
  arith,
  get_process-upsert_process telefone "human_handoff" (resolve_upsert telefone now p) now
      w.handoffs,
  eq_refl telefone,
)

module _ (c : HandoffSettings) (e : Escalation) where
  get_process-activate :
      (now : ℕ) (w : World)
      → get_process e.telefone "human_handoff" (activate_human_handoff c e now w).handoffs
        ≡ some (
            written (get_process e.telefone "human_handoff" w.handoffs) (
              new_row w.handoffs.next_id w.handoffs.is_customer w.handoffs.is_order
                (handoff_upsert c e (is_duplicate c e now w))
                now))
  get_process-activate now w = rw (handoffs-activate c e now w) (
      ground (
        arith,
        get_process-upsert_process e.telefone "human_handoff"
            (handoff_upsert c e (is_duplicate c e now w)) now w.handoffs,
        eq_refl e.telefone,
      ))

  -- Of a handoff that nobody has closed, the table remembers the reason for an hour and, on top, for
  -- as long as the bot's time zone is behind UTC, counted from the second in which it was written:
  -- `updated_at` has whole seconds, is in UTC and is read as local time.
  pub is_recent_persisted_handoff-activate :
      (now later : ℕ) (w : World)
      → is_recent_persisted_handoff c.lag e.telefone e.motivo later
          (activate_human_handoff c e now w).handoffs
        ≡ leb later (current_timestamp now + c.lag + persisted_window)
  unfolding is_recent_persisted_handoff merge_row new_row
  is_recent_persisted_handoff-activate now later w =
      rw (get_process-activate now w) (ground (arith, eq_refl (strip e.motivo)))

  -- Where the table has a handoff of the phone for the same reason: once the bot has the conversation
  -- back, a request is a duplicate for exactly an hour from then.
  pub is_duplicate-deactivate :
      (now later : ℕ) (w : World) (p : Process HandoffPayload)
      → get_process e.telefone "human_handoff" w.handoffs ≡ some p
      → strip p.draft_payload.motivo ≡ strip e.motivo
      → is_duplicate c e later (deactivate_human_handoff e.telefone now w).1
        ≡ leb later (now + persisted_window)
  unfolding is_duplicate is_duplicate_handoff_request is_recent_persisted_handoff merge_row new_row
  is_duplicate-deactivate now later w p h same = rw (get_process-deactivate e.telefone now w p h) (
      ground (
        arith,
        (lookup-attendances-deactivate e.telefone e.telefone now w).1,
        eq_refl e.telefone,
        eq_iff (strip p.draft_payload.motivo) (strip e.motivo),
      ))
