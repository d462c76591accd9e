-- ===== src/Store/Validity.antt =====
-- The runtime state stays within its limits, whatever the calls.
use chokobot.Common.{
  ℕ, ◌+◌, ◌-◌, ◌++◌, max, ◌≤◌, String, ◌≡◌, Bool, some, List, [], ◌∷◌, arith, Dict, insert, lookup,
  lookup-insert, length, length-drop, strip,
}
use chokobot.Store.Trim.{trim_namespace}
use chokobot.Store.Bounded.{
  IsBounded, trim-insert-IsBounded, remove-IsBounded, nil-IsBounded, lookup-trim_namespace,
}
use chokobot.Store.{
  Store, isoformat, seconds, Role, Message, Thread, empty_store, processed_limit, recent_limit,
  opt_out_limit, thread_window, place_of, processed_place, recent_place, reply_place, thread_place,
  set_bot_ativo, set_phone_opted_out, has_processed_message, mark_processed_message,
  mark_processed_message_if_new, set_recent_message, set_recent_bot_reply, keep_last,
  get_conversation_messages, append_conversation_message, clear_runtime_state,
}

abbrev pub IsWindowed : Dict Thread → Type 0
IsWindowed d = (k : String) (t : Thread) → lookup k d ≡ some t → length t.messages ≤ thread_window

-- Distinct keys and the limits of the namespaces that are trimmed, and the window of each thread.
pub record IsValid (s : Store) : Type 0 where
  pub processed : IsBounded processed_limit s.processed_messages
  pub recent : IsBounded recent_limit s.recent_messages
  pub replies : IsBounded recent_limit s.recent_replies
  pub opted_out : IsBounded opt_out_limit s.opt_outs
  pub threads : IsBounded recent_limit s.threads
  pub windows : IsWindowed s.threads

-- The calls that change the store, each at the instant that it reads or is given.
pub data Call : Type 0 where
  sets_bot_ativo : Bool → Call
  sets_opt_out : String → Bool → ℕ → Call
  asks_processed : String → ℕ → Call
  marks_processed : String → ℕ → ℕ → Call
  marks_if_new : String → ℕ → ℕ → Call
  sets_recent_message : String → String → ℕ → Call
  sets_recent_reply : String → String → ℕ → Call
  appends_message : String → Role → String → String → ℕ → Call
  clears : Call

pub perform : Call → Store → Store
perform (sets_bot_ativo value) s = set_bot_ativo value s
perform (sets_opt_out phone value now) s = set_phone_opted_out phone value now s
perform (asks_processed id now) s = (has_processed_message id now s).1
perform (marks_processed id now ttl) s = mark_processed_message id now ttl s
perform (marks_if_new id now ttl) s = (mark_processed_message_if_new id now ttl s).1
perform (sets_recent_message phone text now) s = set_recent_message phone text now s
perform (sets_recent_reply phone hash now) s = set_recent_bot_reply phone hash now s
perform (appends_message phone role label content now) s =
    append_conversation_message phone role label content now s
perform clears s = clear_runtime_state s

pub perform_all : List Call → Store → Store
perform_all [] s = s
perform_all (c ∷ cs) s = perform_all cs (perform c s)

pub set_bot_ativo-IsValid : (value : Bool) {s : Store} → IsValid s → IsValid (set_bot_ativo value s)
unfolding set_bot_ativo
set_bot_ativo-IsValid value v = record {
  processed = v.processed;
  recent = v.recent;
  replies = v.replies;
  opted_out = v.opted_out;
  threads = v.threads;
  windows = v.windows;
}

pub set_phone_opted_out-IsValid :
    (phone : String) (value : Bool) (now : ℕ) {s : Store}
    → IsValid s
    → IsValid (set_phone_opted_out phone value now s)
unfolding set_phone_opted_out
set_phone_opted_out-IsValid phone value now {s} v = ground (
  arith,
  trim-insert-IsBounded place_of opt_out_limit (strip phone) (some (isoformat now)) v.opted_out,
  remove-IsBounded opt_out_limit (strip phone) v.opted_out,
)

pub has_processed_message-IsValid :
    (id : String) (now : ℕ) {s : Store} → IsValid s → IsValid (has_processed_message id now s).1
unfolding has_processed_message
has_processed_message-IsValid id now v =
    ground (arith, remove-IsBounded processed_limit id v.processed)

pub mark_processed_message-IsValid :
    (id : String) (now ttl : ℕ) {s : Store}
    → IsValid s
    → IsValid (mark_processed_message id now ttl s)
unfolding mark_processed_message
mark_processed_message-IsValid id now ttl v = ground (
  arith,
  trim-insert-IsBounded processed_place processed_limit id
      (record {
        seen_at = some (isoformat now);
        expires_at = some (isoformat (now + seconds (max 1 ttl)));
      })
      v.processed,
)

pub mark_processed_message_if_new-IsValid :
    (id : String) (now ttl : ℕ) {s : Store}
    → IsValid s
    → IsValid (mark_processed_message_if_new id now ttl s).1
unfolding mark_processed_message_if_new
mark_processed_message_if_new-IsValid id now ttl {s} v = ground (
  arith,
  has_processed_message-IsValid id now v,
  mark_processed_message-IsValid id now ttl (has_processed_message-IsValid id now v),
)

pub set_recent_message-IsValid :
    (phone text : String) (now : ℕ) {s : Store}
    → IsValid s
    → IsValid (set_recent_message phone text now s)
unfolding set_recent_message
set_recent_message-IsValid phone text now v = ground (
  arith,
  trim-insert-IsBounded recent_place recent_limit phone
      (record { texto = text; hora = some (isoformat now) }) v.recent,
)

pub set_recent_bot_reply-IsValid :
    (phone hash : String) (now : ℕ) {s : Store}
    → IsValid s
    → IsValid (set_recent_bot_reply phone hash now s)
unfolding set_recent_bot_reply
set_recent_bot_reply-IsValid phone hash now v = ground (
  arith,
  trim-insert-IsBounded reply_place recent_limit phone
      (record { hash = hash; hora = some (isoformat now) }) v.replies,
)

length-keep_last : (n : ℕ) (ms : List Message) → length (keep_last n ms) ≤ n
unfolding keep_last
length-keep_last n ms = omega (arith, length-drop (length ms - n) ms)

-- Writing a thread of at most 200 messages, and trimming, keeps every thread so.
trim-insert-IsWindowed :
    (phone : String) (t : Thread) (d : Dict Thread)
    → length t.messages ≤ thread_window
    → IsWindowed d
    → IsWindowed (trim_namespace thread_place recent_limit (insert phone t d))
trim-insert-IsWindowed phone t d fits w k u e =
    let kept = lookup-trim_namespace thread_place recent_limit (insert phone t d) k u e in
    ground (arith, kept, lookup-insert phone k t d, w k u)

pub append_conversation_message-IsValid :
    (phone : String) (role : Role) (label content : String) (now : ℕ) {s : Store}
    → IsValid s
    → IsValid (append_conversation_message phone role label content now s)
unfolding append_conversation_message
append_conversation_message-IsValid phone role label content now {s} v =
    let m : Message = record {
      role = role;
      actor_label = label;
      content = strip content;
      timestamp = now;
    } in
    let window = keep_last thread_window (get_conversation_messages phone s ++ m ∷ []) in
    let t : Thread = record { messages = window; updated_at = some (isoformat now) } in
    let bounded = trim-insert-IsBounded thread_place recent_limit phone t v.threads in
    let windowed =
      trim-insert-IsWindowed phone t s.threads
        (length-keep_last thread_window (get_conversation_messages phone s ++ m ∷ [])) v.windows in
    ground (arith, bounded, windowed)

pub clear_runtime_state-IsValid : {s : Store} → IsValid s → IsValid (clear_runtime_state s)
unfolding clear_runtime_state
clear_runtime_state-IsValid v = record {
  processed = nil-IsBounded processed_limit;
  recent = nil-IsBounded recent_limit;
  replies = nil-IsBounded recent_limit;
  opted_out = nil-IsBounded opt_out_limit;
  threads = nil-IsBounded recent_limit;
  windows = λ k t e. unfold lookup in cc e;
}

perform-IsValid : (c : Call) {s : Store} → IsValid s → IsValid (perform c s)
unfolding perform
perform-IsValid (sets_bot_ativo value) v = set_bot_ativo-IsValid value v
perform-IsValid (sets_opt_out phone value now) v = set_phone_opted_out-IsValid phone value now v
perform-IsValid (asks_processed id now) v = has_processed_message-IsValid id now v
perform-IsValid (marks_processed id now ttl) v = mark_processed_message-IsValid id now ttl v
perform-IsValid (marks_if_new id now ttl) v = mark_processed_message_if_new-IsValid id now ttl v
perform-IsValid (sets_recent_message phone text now) v = set_recent_message-IsValid phone text now v
perform-IsValid (sets_recent_reply phone hash now) v = set_recent_bot_reply-IsValid phone hash now v
perform-IsValid (appends_message phone role label content now) v =
    append_conversation_message-IsValid phone role label content now v
perform-IsValid clears v = clear_runtime_state-IsValid v

-- From a valid store, any sequence of calls leaves a valid store: each trimmed namespace has
-- distinct keys and at most its limit of entries (2000 processed messages, 5000 recent messages,
-- replies and threads, 10000 opted-out phones), and no thread has more than 200 messages.
pub perform_all-IsValid : (cs : List Call) {s : Store} → IsValid s → IsValid (perform_all cs s)
unfolding perform_all
perform_all-IsValid [] v = v
perform_all-IsValid (c ∷ cs) v = perform_all-IsValid cs (perform-IsValid c v)

pub empty_store-IsValid : IsValid empty_store
empty_store-IsValid = record {
  processed = nil-IsBounded processed_limit;
  recent = nil-IsBounded recent_limit;
  replies = nil-IsBounded recent_limit;
  opted_out = nil-IsBounded opt_out_limit;
  threads = nil-IsBounded recent_limit;
  windows = λ k t e. unfold lookup in cc e;
}
