-- ===== src/Store.antt =====
-- `ConversationStateStore` (app/infrastructure/state/conversation_state_store.py): the runtime
-- state of the conversations of one tenant, a namespace for each kind of entry. Every operation is
-- a function from the store to the store. An instant is a number of microseconds, and where the
-- source reads the clock the instant is an argument.
mod Entries
pub mod Trim
pub mod Bounded
pub mod Validity
pub mod Dedup
pub mod OptOut
pub mod Threads
pub use Entries.*
use chokobot.Store.Trim.{trim_namespace}
use chokobot.Reasons.{Category, Origin}
use chokobot.Common.{
  ℕ, suc, ◌+◌, ◌-◌, ◌*◌, max, String, Bool, true, false, ◌&&◌, Option, none, some, List, [], ◌∷◌,
  ◌++◌, Dict, lookup, insert, remove, drop, length, leb, ◌==◌, str_eq, strip, is_some,
  if◌then◌else◌,
}

pub record Store : Type 0 where
  pub flags : Dict Bool
  -- the drafts of the four order flows and the sessions of the AI, each as the text that is stored
  pub estados_encomenda : Dict String
  pub estados_cafeteria : Dict String
  pub estados_entrega : Dict String
  pub estados_cestas_box : Dict String
  pub ai_sessions : Dict String
  pub attendances : Dict Attendance
  pub threads : Dict Thread
  pub processed_messages : Dict ProcessedMessage
  pub recent_messages : Dict RecentMessage
  pub recent_replies : Dict RecentReply
  pub opt_outs : Dict (Option Stamp)

abbrev pub empty_store : Store
empty_store = record {
  flags = [];
  estados_encomenda = [];
  estados_cafeteria = [];
  estados_entrega = [];
  estados_cestas_box = [];
  ai_sessions = [];
  attendances = [];
  threads = [];
  processed_messages = [];
  recent_messages = [];
  recent_replies = [];
  opt_outs = [];
}

abbrev pub processed_limit : ℕ
processed_limit = 2000

abbrev pub recent_limit : ℕ
recent_limit = 5000

abbrev pub opt_out_limit : ℕ
opt_out_limit = 10000

abbrev pub thread_window : ℕ
thread_window = 200

abbrev or_default {ℓ} : {A : Type ℓ} → Option A → A → A
or_default none d = d
or_default (some a) d = a

unfoldable pub is_bot_ativo : Store → Bool
is_bot_ativo s = or_default (lookup "bot_ativo" s.flags) true

unfoldable pub set_bot_ativo : Bool → Store → Store
set_bot_ativo value s = record s { flags = insert "bot_ativo" value s.flags }

unfoldable pub is_phone_opted_out : String → Store → Bool
is_phone_opted_out phone s =
    let normalized = strip phone in
    if str_eq normalized "" then false else is_some (lookup normalized s.opt_outs)

unfoldable pub set_phone_opted_out : String → Bool → ℕ → Store → Store
set_phone_opted_out phone value now s =
    let normalized = strip phone in
    if str_eq normalized ""
    then s
    else if value
    then record s {
      opt_outs =
          trim_namespace place_of opt_out_limit
            (insert normalized (some (isoformat now)) s.opt_outs);
    }
    else record s { opt_outs = remove normalized s.opt_outs }

unfoldable pub read_stamp : Option Stamp → Option ℕ
read_stamp none = none
read_stamp (some s) = s.instant

unfoldable pub get_phone_opted_out_updated_at : String → Store → Option ℕ
unfolding read_stamp
get_phone_opted_out_updated_at phone s =
    let normalized = strip phone in
    if str_eq normalized ""
    then none
    else read_stamp (or_default (lookup normalized s.opt_outs) none)

abbrev processed_ttl : ℕ
processed_ttl = seconds 60

-- `expires_at`, and for an older entry without one `seen_at` and the time to live
abbrev expiry : ProcessedMessage → Option ℕ
expiry p = elim p.expires_at [
  | some s ↦ s.instant
  | none ↦ elim (read_stamp p.seen_at) [ none ↦ none | some seen ↦ some (seen + processed_ttl) ]
]

-- whether the entry has run out at `now`
unfoldable pub has_expired : ℕ → ProcessedMessage → Bool
unfolding read_stamp
has_expired now p = elim (expiry p) [ none ↦ false | some t ↦ leb t now ]

unfoldable pub has_processed_message : String → ℕ → Store → Bool × Store
has_processed_message message_id now s =
    if str_eq message_id "" then (false, s) else elim (lookup message_id s.processed_messages) [
      | none ↦ (false, s)
      | some p ↦
          if has_expired now p
          then (false, record s { processed_messages = remove message_id s.processed_messages })
          else (true, s)
    ]

abbrev pub processed_place : ProcessedMessage → ℕ
processed_place p = place_of p.seen_at

unfoldable pub mark_processed_message : String → ℕ → ℕ → Store → Store
mark_processed_message message_id seen_at ttl_seconds s =
    if str_eq message_id "" then s else record s {
      processed_messages = trim_namespace processed_place processed_limit (
          insert message_id
            (record {
              seen_at = some (isoformat seen_at);
              expires_at = some (isoformat (seen_at + seconds (max 1 ttl_seconds)));
            })
            s.processed_messages);
    }

unfoldable pub mark_processed_message_if_new : String → ℕ → ℕ → Store → Bool × Store
mark_processed_message_if_new message_id seen_at ttl_seconds s =
    if str_eq message_id ""
    then (true, s)
    else let (seen, s') = has_processed_message message_id seen_at s in
      if seen then (false, s') else (true, mark_processed_message message_id seen_at ttl_seconds s')

unfoldable pub get_recent_message : String → Store → Option RecentMessage
get_recent_message phone s = if str_eq phone "" then none else lookup phone s.recent_messages

abbrev pub recent_place : RecentMessage → ℕ
recent_place m = place_of m.hora

unfoldable pub set_recent_message : String → String → ℕ → Store → Store
set_recent_message phone text seen_at s = if str_eq phone "" then s else record s {
  recent_messages =
      trim_namespace recent_place recent_limit
        (insert phone (record { texto = text; hora = some (isoformat seen_at) }) s.recent_messages);
}

unfoldable pub get_recent_bot_reply : String → Store → Option RecentReply
get_recent_bot_reply phone s = if str_eq phone "" then none else lookup phone s.recent_replies

abbrev pub reply_place : RecentReply → ℕ
reply_place r = place_of r.hora

unfoldable pub set_recent_bot_reply : String → String → ℕ → Store → Store
set_recent_bot_reply phone reply_hash seen_at s = if str_eq phone "" then s else record s {
  recent_replies = trim_namespace reply_place recent_limit (
      insert phone (record { hash = reply_hash; hora = some (isoformat seen_at) })
        s.recent_replies);
}

abbrev no_messages : Thread
no_messages = record { messages = []; updated_at = none }

unfoldable pub get_conversation_messages : String → Store → List Message
get_conversation_messages phone s =
    if str_eq phone "" then [] else (or_default (lookup phone s.threads) no_messages).messages

unfoldable pub last? : List Message → Option Message
last? [] = none
last? (m ∷ ms) = elim (last? ms) [ none ↦ some m | some l ↦ some l ]

unfoldable pub same_role : Role → Role → Bool
same_role cliente cliente = true
same_role bot bot = true
same_role ia ia = true
same_role humano humano = true
same_role contexto contexto = true
same_role _ _ = false

-- The last message has the same role, content and timestamp.
unfoldable pub repeats_last : Role → String → ℕ → List Message → Bool
unfolding last? same_role
repeats_last role content timestamp messages = elim (last? messages) [
  | none ↦ false
  | some m ↦ same_role m.role role && (str_eq m.content content && m.timestamp == timestamp)
]

-- `messages[-200:]`
unfoldable pub keep_last : ℕ → List Message → List Message
keep_last n ms = drop (length ms - n) ms

abbrev pub thread_place : Thread → ℕ
thread_place t = place_of t.updated_at

unfoldable pub append_conversation_message : String → Role → String → String → ℕ → Store → Store
append_conversation_message phone role actor_label content seen_at s =
    let normalized = strip content in
    let messages = get_conversation_messages phone s in
    if str_eq phone ""
    then s
    else if str_eq normalized ""
    then s
    else if repeats_last role normalized seen_at messages
    then s
    else record s {
      threads = trim_namespace thread_place recent_limit (
          insert phone
            (record {
              messages = keep_last thread_window (
                  messages
                  ++ record {
                    role = role;
                    actor_label = actor_label;
                    content = normalized;
                    timestamp = seen_at;
                  }
                    ∷ []);
              updated_at = some (isoformat seen_at);
            })
            s.threads);
    }

unfoldable pub clear_runtime_state : Store → Store
clear_runtime_state s = record s {
  ai_sessions = [];
  threads = [];
  processed_messages = [];
  recent_messages = [];
  recent_replies = [];
  opt_outs = [];
}
