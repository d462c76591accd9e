-- ===== src/Store/Entries.antt =====
-- What the namespaces of the runtime state hold, and the instants in it.
use chokobot.Reasons.{Category, Origin}
use chokobot.Common.{ℕ, suc, ◌*◌, String, Option, none, some, List}

-- A text with a date: its place among the texts in the order of texts (0 for the empty text), and
-- the instant that `datetime.fromisoformat` reads from it, `none` where that raises `ValueError`.
pub record Stamp : Type 0 where
  pub place : ℕ
  pub instant : Option ℕ

-- `instant.isoformat()`
abbrev pub isoformat : ℕ → Stamp
isoformat t = record { place = suc t; instant = some t }

abbrev pub seconds : ℕ → ℕ
seconds n = n * 1000000

abbrev pub minutes : ℕ → ℕ
minutes n = n * 60000000

-- `value.get(sort_key, "")` as a place among the texts
abbrev pub place_of : Option Stamp → ℕ
place_of none = 0
place_of (some s) = s.place

pub record ProcessedMessage : Type 0 where
  pub seen_at : Option Stamp
  pub expires_at : Option Stamp

pub record RecentMessage : Type 0 where
  pub texto : String
  pub hora : Option Stamp

pub record RecentReply : Type 0 where
  pub hash : String
  pub hora : Option Stamp

pub data Role : Type 0 where
  cliente bot ia humano contexto : Role

pub record Message : Type 0 where
  pub role : Role
  pub actor_label : String
  pub content : String
  pub timestamp : ℕ

pub record Thread : Type 0 where
  pub messages : List Message
  pub updated_at : Option Stamp

-- A conversation that a person has taken over (`estados_atendimento`).
pub record Attendance : Type 0 where
  pub inicio : Option Stamp
  pub audit_at : Option Stamp
  pub pending_ack_at : Option Stamp
  pub nome : String
  pub motivo : String
  pub categoria : Category
  pub origem : Origin
  pub contexto_resumo : String
  pub proximo_passo : String
