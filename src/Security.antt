-- ===== src/Security.antt =====
-- The webhook and the panel (app/security.py). Here is the replay cache of the webhook: a message id that has been seen within the
-- window is a replay. Instants and the window are in microseconds.
pub mod Replays
pub mod Access
pub mod Phones
use chokobot.Common.{
  ℕ, ◌+◌, String, Bool, true, false, List, [], ◌∷◌, Dict, insert, has_key, str_eq, leb,
  if◌then◌else◌,
}

-- `_replay_cache` without the entries for which `now - seen_at > window`
unfoldable pub evict : ℕ → ℕ → Dict ℕ → Dict ℕ
evict window now [] = []
evict window now ((key, seen_at) ∷ cache) =
    let rest = evict window now cache in
    if leb now (seen_at + window) then (key, seen_at) ∷ rest else rest

-- Whether the event is a replay, and `_replay_cache` after the call.
unfoldable pub is_replay_event : ℕ → String → ℕ → Dict ℕ → Bool × Dict ℕ
is_replay_event window message_id now cache =
    let fresh = evict window now cache in
    if str_eq message_id ""
    then (false, cache)
    else if has_key message_id fresh
    then (true, fresh)
    else (false, insert message_id now fresh)
