-- ===== src/Store/Threads.antt =====
-- `append_conversation_message`: the panel's record of a conversation.
use chokobot.Common.{
  ℕ, zero, suc, ◌-◌, ◌≤◌, ◌<◌, String, ◌≡◌, refl, true, false, inl, inr, Bool-cases, List, [], ◌∷◌,
  ◌++◌, some, arith, insert, lookup-insert, length, length-append, length-insert-le, drop, strip,
  str_eq, eq_iff, eq_refl,
}
use chokobot.Store.Dedup.{trim_namespace_small}
use chokobot.Store.{
  Store, Role, Message, Thread, isoformat, recent_limit, thread_place, thread_window, last?,
  keep_last, repeats_last, get_conversation_messages, append_conversation_message, same_role,
  cliente, bot, ia, humano, contexto,
}

last?-drop :
    (k : ℕ) (ms : List Message) (m : Message)
    → k ≤ length ms
    → last? (drop k (ms ++ m ∷ [])) ≡ some m
unfolding last?
last?-drop zero [] m h = refl
last?-drop zero (x ∷ ms) m h = ground (arith, last?-drop zero ms m)
last?-drop (suc k) [] m h = absurd (omega arith)
last?-drop (suc k) (x ∷ ms) m h = last?-drop k ms m (omega arith)

last?-keep_last :
    (ms : List Message) (m : Message) → last? (keep_last thread_window (ms ++ m ∷ [])) ≡ some m
unfolding keep_last
last?-keep_last ms m =
    last?-drop (length (ms ++ m ∷ []) - thread_window) ms m
      (omega (arith, length-append ms (m ∷ [])))

same_role_refl : (r : Role) → same_role r r ≡ true
unfolding same_role
same_role_refl cliente = refl
same_role_refl bot = refl
same_role_refl ia = refl
same_role_refl humano = refl
same_role_refl contexto = refl

abbrev message_of : Role → String → String → ℕ → Message
message_of role label content now = record {
  role = role;
  actor_label = label;
  content = strip content;
  timestamp = now;
}

-- While there is room for one more thread, a message of some text that does not repeat the last one
-- is the last of its thread, behind at most 199 of the messages that stood there.
pub get_conversation_messages-append :
    (phone : String) (role : Role) (label content : String) (now : ℕ) (s : Store)
    → length s.threads < recent_limit
    → str_eq phone "" ≡ false
    → str_eq (strip content) "" ≡ false
    → repeats_last role (strip content) now (get_conversation_messages phone s) ≡ false
    → get_conversation_messages phone (append_conversation_message phone role label content now s)
      ≡ keep_last thread_window
          (get_conversation_messages phone s ++ message_of role label content now ∷ [])
unfolding append_conversation_message get_conversation_messages
get_conversation_messages-append phone role label content now s room named said fresh =
    let m : Message = message_of role label content now in
    let window =
      keep_last thread_window
        (unfold get_conversation_messages in get_conversation_messages phone s ++ m ∷ []) in
    let t : Thread = record { messages = window; updated_at = some (isoformat now) } in
    ground (
      arith,
      eq_iff phone "",
      trim_namespace_small thread_place recent_limit (insert phone t s.threads),
      length-insert-le phone t s.threads,
      lookup-insert phone phone t s.threads,
      eq_refl phone,
    )

append_repeated :
    (phone : String) (role : Role) (label content : String) (now : ℕ) (s : Store)
    → repeats_last role (strip content) now (get_conversation_messages phone s) ≡ true
    → append_conversation_message phone role label content now s ≡ s
unfolding append_conversation_message
append_repeated phone role label content now s h = ground arith

repeats_last-keep_last :
    (role : Role) (label content : String) (now : ℕ) (ms : List Message)
    → repeats_last role
        (strip content)
        now
        (keep_last thread_window (ms ++ message_of role label content now ∷ []))
      ≡ true
unfolding repeats_last
repeats_last-keep_last role label content now ms = ground (
  arith,
  last?-keep_last ms (message_of role label content now),
  same_role_refl role,
  eq_refl (strip content),
)

-- While there is room for one more thread, recording the same message at the same instant once more
-- changes nothing, whatever the phone, the text and the state.
append_conversation_message_again :
    (phone : String) (role : Role) (label label' content : String) (now : ℕ) (s : Store)
    → length s.threads < recent_limit
    → append_conversation_message phone role label' content now
        (append_conversation_message phone role label content now s)
      ≡ append_conversation_message phone role label content now s
append_conversation_message_again phone role label label' content now s room =
    elim (Bool-cases (str_eq phone "")) [
      | inl blank ↦ unfold append_conversation_message in ground arith
      | inr named ↦ elim (Bool-cases (str_eq (strip content) "")) [
        | inl empty ↦ unfold append_conversation_message in ground arith
        | inr said ↦
            elim (Bool-cases
              (repeats_last role (strip content) now (get_conversation_messages phone s))) [
                | inl old ↦
                    rw (append_repeated phone role label content now s old)
                      (append_repeated phone role label' content now s old)
                | inr fresh ↦ append_repeated phone role label' content now _ (
                    rw
                      (get_conversation_messages-append phone role label content now s room named
                        said fresh)
                      (repeats_last-keep_last role label content now
                        (get_conversation_messages phone s)))
              ]
      ]
    ]
