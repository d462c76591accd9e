-- ===== src/Handoff.antt =====
-- Handing a conversation to a person and back
-- (app/application/use_cases/manage_human_handoff.py).
pub mod Duplicates
pub mod Reactivation
pub mod Alerts
use chokobot.Reasons.{
  Category, Origin, Topic, fora_contexto, pix, pascoa, catalogo_visual, presentes, doces, cafeteria,
  bolos, geral, classify_escalation_category, resolve_escalation_source, is_knowledge_failure,
  failure_topic_from_reason,
}
use Alerts.{Watch, AlertSettings, record_failure_alert_if_needed}
use chokobot.Processes.{Repository, Process, Upsert, get_process, upsert_process}
use chokobot.Store.{Store, Stamp, Attendance, Role, isoformat, minutes, read_stamp}
use chokobot.Common.{
  ℕ, ◌+◌, String, Bool, true, false, not, ◌&&◌, ◌||◌, Option, none, some, List, [], ◌∷◌, Dict,
  insert, lookup, remove, has_key, leb, ◌==◌, str_eq, strip, if◌then◌else◌,
}

-- The draft payload of a process of type `human_handoff`.
pub record HandoffPayload : Type 0 where
  pub nome : String
  pub motivo : String
  pub categoria : Category
  pub origem : Origin
  pub duplicated_request : Bool
  pub resumo : String
  pub proximo_passo : String
  pub encerrado_em : Option Stamp

-- What a use case does beside the state: the messages that it hands to the gateway, the events that
-- it publishes, the audit line, the counters, the pauses, the customers that it saves, the questions
-- to the AI, and an exception that leaves it.
pub data Effect : Type 0 where
  sent : String → String → Role → Effect
  skipped : String → Effect
  replied : String → Effect
  escalated : String → String → Effect
  audited : String → String → Effect
  measured : Category → Effect
  alerted : Topic → Effect
  slept : ℕ → Effect
  saved_customer : String → String → Effect
  asked_ai : String → Effect
  failed : String → Effect

-- The runtime state, the table of handoffs, the failures seen for each topic, and the effects so
-- far, the latest first.
pub record World : Type 0 where
  pub store : Store
  pub handoffs : Repository HandoffPayload
  pub watches : Topic → Watch
  pub effects : List Effect

abbrev pub emit : Effect → World → World
emit e w = record w { effects = e ∷ w.effects }

-- The arguments of `activate_human_handoff`, with the two texts of the context that it stores.
pub record Escalation : Type 0 where
  pub telefone : String
  pub nome : String
  pub motivo : String
  pub resumo : String
  pub proximo_passo : String
  pub has_audit_writer : Bool

-- What the use case reads of its surroundings: how far the bot's time zone is behind UTC,
-- `_normalize_text`, and the settings of the alerts.
pub record HandoffSettings : Type 0 where
  pub lag : ℕ
  pub normalize : String → String
  pub alerts : AlertSettings

abbrev pub category_of : HandoffSettings → Escalation → Category
category_of c e = classify_escalation_category (c.normalize e.motivo)

abbrev pub origin_of : HandoffSettings → Escalation → Origin
origin_of c e = resolve_escalation_source (c.normalize e.motivo)

abbrev pub duplicate_window : ℕ
duplicate_window = minutes 10

abbrev pub persisted_window : ℕ
persisted_window = minutes 60

unfoldable pub clear_customer_active_flows : String → Store → Store
clear_customer_active_flows telefone s = record s {
  estados_encomenda = remove telefone s.estados_encomenda;
  estados_cafeteria = remove telefone s.estados_cafeteria;
  estados_entrega = remove telefone s.estados_entrega;
  estados_cestas_box = remove telefone s.estados_cestas_box;
}

-- `a or b` for two texts with a date
abbrev or_stamp : Option Stamp → Option Stamp → Option Stamp
or_stamp none b = b
or_stamp (some a) b = some a

-- `now - last <= window`
abbrev pub within : ℕ → ℕ → Option ℕ → Bool
within window now none = false
within window now (some last) = leb now (last + window)

unfoldable pub duplicates : Option Attendance → String → ℕ → Bool
unfolding read_stamp
duplicates none motivo now = false
duplicates (some state) motivo now =
    str_eq (strip state.motivo) (strip motivo)
    && within duplicate_window now (read_stamp (or_stamp state.audit_at state.inicio))

unfoldable pub is_duplicate_handoff_request : String → String → ℕ → Store → Bool
unfolding duplicates
is_duplicate_handoff_request telefone motivo now s =
    duplicates (lookup telefone s.attendances) motivo now

-- `updated_at` is a UTC time with no zone, which `normalize_to_bot_timezone` reads as a time of the
-- bot's zone. That zone is `lag` behind UTC, so the instant that is read is `lag` later.
unfoldable pub persisted_at : ℕ → Process HandoffPayload → Option ℕ
persisted_at lag p = elim p.draft_payload.encerrado_em [
  | some closed ↦ closed.instant
  | none ↦ some (p.updated_at + lag)
]

unfoldable pub repeats_process : ℕ → String → ℕ → Option (Process HandoffPayload) → Bool
unfolding persisted_at
repeats_process lag motivo now none = false
repeats_process lag motivo now (some p) =
    str_eq (strip p.draft_payload.motivo) (strip motivo)
    && within persisted_window now (persisted_at lag p)

unfoldable pub is_recent_persisted_handoff :
    ℕ → String → String → ℕ → Repository HandoffPayload → Bool
unfolding repeats_process
is_recent_persisted_handoff lag telefone motivo now r =
    repeats_process lag motivo now (get_process telefone "human_handoff" r)

unfoldable pub is_duplicate : HandoffSettings → Escalation → ℕ → World → Bool
is_duplicate c e now w =
    is_duplicate_handoff_request e.telefone e.motivo now w.store
    || is_recent_persisted_handoff c.lag e.telefone e.motivo now w.handoffs

abbrev pub attendance_of : HandoffSettings → Escalation → ℕ → Attendance
attendance_of c e now = record {
  inicio = some (isoformat now);
  audit_at = some (isoformat now);
  pending_ack_at = none;
  nome = e.nome;
  motivo = e.motivo;
  categoria = category_of c e;
  origem = origin_of c e;
  contexto_resumo = e.resumo;
  proximo_passo = e.proximo_passo;
}

abbrev pub handoff_upsert : HandoffSettings → Escalation → Bool → Upsert HandoffPayload
handoff_upsert c e duplicate = record {
  phone = e.telefone;
  customer_id = none;
  process_type = "human_handoff";
  stage = "handoff_humano";
  status = "active";
  source = some "human_handoff";
  draft_payload = record {
    nome = e.nome;
    motivo = e.motivo;
    categoria = category_of c e;
    origem = origin_of c e;
    duplicated_request = duplicate;
    resumo = e.resumo;
    proximo_passo = e.proximo_passo;
    encerrado_em = none;
  };
  order_id = none;
}

abbrev topic_number : Topic → ℕ
topic_number fora_contexto = 0
topic_number pix = 1
topic_number pascoa = 2
topic_number catalogo_visual = 3
topic_number presentes = 4
topic_number doces = 5
topic_number cafeteria = 6
topic_number bolos = 7
topic_number geral = 8

-- The alert for one topic, on the watches of all.
unfoldable pub watch_failure : HandoffSettings → Topic → ℕ → World → World
watch_failure c topic now w =
    let (raised, watch) = record_failure_alert_if_needed c.alerts now (w.watches topic) in
    let watched : World = record w {
      watches = λ t. if topic_number t == topic_number topic then watch else w.watches t;
    } in
    if raised then emit (alerted topic) watched else watched

unfoldable pub record_escalation_metrics : HandoffSettings → Escalation → ℕ → World → World
unfolding watch_failure
record_escalation_metrics c e now w =
    let counted = emit (measured (category_of c e)) w in
    if is_knowledge_failure (category_of c e)
    then watch_failure c (failure_topic_from_reason (c.normalize e.motivo) (category_of c e)) now
        counted
    else counted

-- The state after `activate_human_handoff`, for a request that is or is not a duplicate.
unfoldable pub hand_over : HandoffSettings → Escalation → Bool → ℕ → World → World
unfolding clear_customer_active_flows
hand_over c e duplicate now w =
    let cleared = clear_customer_active_flows e.telefone w.store in
    record w {
      store = record cleared {
        attendances = insert e.telefone (attendance_of c e now) cleared.attendances;
      };
      handoffs = upsert_process (handoff_upsert c e duplicate) now w.handoffs;
    }

unfoldable pub announce : HandoffSettings → Escalation → ℕ → World → World
announce c e now w = emit (escalated e.telefone e.motivo) (record_escalation_metrics c e now w)

unfoldable pub activate_human_handoff : HandoffSettings → Escalation → ℕ → World → World
activate_human_handoff c e now w =
    let duplicate = is_duplicate c e now w in
    let noted =
      if e.has_audit_writer && not duplicate then emit (audited e.telefone e.motivo) w else w in
    let moved = hand_over c e duplicate now noted in
    if duplicate then moved else announce c e now moved

-- `existing_process.source or "human_handoff"`
abbrev pub source_of : Option String → String
source_of none = "human_handoff"
source_of (some s) = if str_eq s "" then "human_handoff" else s

abbrev pub resolve_upsert : String → ℕ → Process HandoffPayload → Upsert HandoffPayload
resolve_upsert telefone now p = record {
  phone = telefone;
  customer_id = p.customer_id;
  process_type = "human_handoff";
  stage = "bot_reativado";
  status = "resolved";
  source = some (source_of p.source);
  draft_payload = record p.draft_payload { encerrado_em = some (isoformat now) };
  order_id = p.order_id;
}

abbrev resolve_process :
    String
    → ℕ
    → Option (Process HandoffPayload)
    → Repository HandoffPayload
    → Repository HandoffPayload
resolve_process telefone now none r = r
resolve_process telefone now (some p) r = upsert_process (resolve_upsert telefone now p) now r

-- Whether the conversation was with a person, and the world with the bot back in it.
unfoldable pub deactivate_human_handoff : String → ℕ → World → Bool × World
deactivate_human_handoff telefone now w = (
  has_key telefone w.store.attendances,
  record w {
    store = record w.store { attendances = remove telefone w.store.attendances };
    handoffs =
        resolve_process telefone now (get_process telefone "human_handoff" w.handoffs) w.handoffs;
  },
)
