-- ===== src/Store/Dedup.antt =====
-- Webhooks are delivered more than once: a message is new once within its time to live.
use chokobot.Common.{
  ℕ, ◌+◌, ◌≤◌, ◌<◌, max, String, ◌≡◌, ◌≢◌, true, false, some, arith, Dict, insert, not,
  lookup-insert, length, length-insert-le, length-remove-le, eq_iff, leb, eq_refl,
}
use chokobot.Store.Trim.{trim_namespace}
use chokobot.Store.{
  Store, isoformat, seconds, processed_limit, processed_place, has_processed_message, has_expired,
  mark_processed_message, mark_processed_message_if_new, ProcessedMessage,
}

-- Below its limit a namespace is not trimmed.
pub trim_namespace_small {ℓ} :
    {V : Type ℓ} (rank : V → ℕ) (limit : ℕ) (d : Dict V)
    → length d ≤ limit
    → trim_namespace rank limit d ≡ d
unfolding trim_namespace
trim_namespace_small rank limit d h = ground arith

has_processed_message_mark :
    (id : String) (now ttl later : ℕ) (s : Store)
    → id ≢ ""
    → length s.processed_messages < processed_limit
    → (has_processed_message id later (mark_processed_message id now ttl s)).0
      ≡ not (leb (now + seconds (max 1 ttl)) later)
unfolding has_processed_message mark_processed_message has_expired
has_processed_message_mark id now ttl later s named room =
    let p : ProcessedMessage = record {
      seen_at = some (isoformat now);
      expires_at = some (isoformat (now + seconds (max 1 ttl)));
    } in
    ground (
      arith,
      eq_iff id "",
      trim_namespace_small processed_place processed_limit (insert id p s.processed_messages),
      length-insert-le id p s.processed_messages,
      lookup-insert id id p s.processed_messages,
      eq_refl id,
    )

length-has_processed_message :
    (id : String) (now : ℕ) (s : Store)
    → length (has_processed_message id now s).1.processed_messages ≤ length s.processed_messages
unfolding has_processed_message
length-has_processed_message id now s = ground (arith, length-remove-le id s.processed_messages)

-- While there is room for one more entry, a message that was new is not new again before its time
-- to live (at least a second) is over, and is new again from then on.
pub mark_processed_message_if_new_once :
    (id : String) (now ttl later ttl' : ℕ) (s : Store)
    → id ≢ ""
    → length s.processed_messages < processed_limit
    → (mark_processed_message_if_new id now ttl s).0 ≡ true
    → (mark_processed_message_if_new id later ttl' (mark_processed_message_if_new id now ttl s).1).0
      ≡ leb (now + seconds (max 1 ttl)) later
unfolding mark_processed_message_if_new
mark_processed_message_if_new_once id now ttl later ttl' s named room new =
    let s' = (has_processed_message id now s).1 in
    let kept = length-has_processed_message id now s in
    ground (
      arith,
      eq_iff id "",
      has_processed_message_mark id now ttl later s' named (omega (arith, kept)),
    )

-- A message that counts as processed leaves the store as it is, and so does asking about it.
pub mark_processed_message_if_new_repeat :
    (id : String) (now ttl : ℕ) (s : Store)
    → (mark_processed_message_if_new id now ttl s).0 ≡ false
    → (mark_processed_message_if_new id now ttl s).1 ≡ s
unfolding mark_processed_message_if_new has_processed_message
mark_processed_message_if_new_repeat id now ttl s old = ground arith
