-- ===== src/Security/Replays.antt =====
-- How long the replay cache remembers an event.
use chokobot.Security.{evict, is_replay_event}
use chokobot.Common.{
  ℕ, ◌+◌, ◌≤◌, String, ◌≡◌, false, [], ◌∷◌, arith, Dict, lookup, insert, has_key, str_eq, eq_iff,
  eq_refl, leb, Bool-cases, inl, inr,
}

-- A key that is not there is found, once written and evicted from, exactly within the window.
has_key-evict-insert :
    (window now later : ℕ) (id : String) (d : Dict ℕ)
    → has_key id d ≡ false
    → has_key id (evict window later (insert id now d)) ≡ leb later (now + window)
unfolding evict insert lookup
has_key-evict-insert window now later id [] h = ground (arith, eq_refl id)
has_key-evict-insert window now later id ((key, seen) ∷ d) h =
    ground (arith, eq_iff key id, eq_refl id, has_key-evict-insert window now later id d)

has_key-evict-evict :
    (window now later last : ℕ) (id : String) (d : Dict ℕ)
    → has_key id d ≡ false
    → later ≤ now + window
    → has_key id (evict window last (evict window later (insert id now d)))
      ≡ leb last (now + window)
unfolding evict insert lookup
has_key-evict-evict window now later last id [] h soon = ground (arith, eq_refl id)
has_key-evict-evict window now later last id ((key, seen) ∷ d) h soon =
    ground (arith, eq_iff key id, eq_refl id, has_key-evict-evict window now later last id d)

-- An event with an id (not empty) that is not a replay makes a later one with that id a replay exactly
-- until the window is over, whatever stood in the cache. A replay within the window does not prolong
-- it: the same holds of an event that comes after one.
is_replay_event_again :
    (window now later last : ℕ) (id : String) (cache : Dict ℕ)
    → str_eq id "" ≡ false
    → (is_replay_event window id now cache).0 ≡ false
    → later ≤ now + window
    → let seen = (is_replay_event window id now cache).1 in
      let replayed = (is_replay_event window id later seen).1 in
      ((is_replay_event window id last seen).0 ≡ leb last (now + window))
      × ((is_replay_event window id last replayed).0 ≡ leb last (now + window))
unfolding is_replay_event
is_replay_event_again window now later last id cache named new soon =
    elim (Bool-cases (has_key id (evict window now cache))) [
      | inl old ↦ ground (arith, old, named, new)
      | inr absent ↦
          let once = has_key-evict-insert window now last id (evict window now cache) absent in
          let again = has_key-evict-insert window now later id (evict window now cache) absent in
          let twice =
            has_key-evict-evict window now later last id (evict window now cache) absent soon in
          ground (arith, named, absent, once, again, twice)
    ]
