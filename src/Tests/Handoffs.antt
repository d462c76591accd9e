-- ===== src/Tests/Handoffs.antt =====
-- Handoffs: duplicates, alerts, reactivation and what the table of processes remembers.
use chokobot.Common.{ℕ, ◌≡◌, refl, true, false, none, some, List, [], ◌∷◌, arith}
use chokobot.Store.{empty_store, minutes}
use chokobot.Processes.{Repository, Process, get_process, upsert_process}
use chokobot.Processes.Laws.{get_process-upsert_process}
use chokobot.Handoff.{
  World, HandoffPayload, HandoffSettings, Escalation, handoff_upsert, activate_human_handoff,
  deactivate_human_handoff, is_duplicate, is_recent_persisted_handoff, attendance_of,
}
use chokobot.Handoff.Alerts.{AlertSettings}
use chokobot.Handoff.Alerts.Spacing.{alerts, IsSpaced, alerts-IsSpaced}
use chokobot.Handoff.Duplicates.{effects-activate_again}
use chokobot.Handoff.Reactivation.{is_duplicate-deactivate, is_recent_persisted_handoff-activate}

abbrev pub no_rows : Repository HandoffPayload
no_rows = record { rows = []; next_id = 1; is_customer = λ _. true; is_order = λ _. true }

abbrev pub calm : World
calm = record {
  store = empty_store;
  handoffs = no_rows;
  watches = λ _. record { samples = []; last_alert = none };
  effects = [];
}

-- São Paulo is three hours behind UTC.
abbrev pub sao_paulo : HandoffSettings
sao_paulo = record {
  lag = minutes 180;
  normalize = λ t. t;
  alerts = record { threshold = 3; window_minutes = 30 };
}

abbrev pub wants_human : Escalation
wants_human = record {
  telefone = "5516";
  nome = "Ana";
  motivo = "cliente pediu humano";
  resumo = "";
  proximo_passo = "";
  has_audit_writer = true;
}

effects-activate_again_example :
    (activate_human_handoff sao_paulo wants_human
      (minutes 9)
      (activate_human_handoff sao_paulo wants_human (minutes 1) calm)).effects
    ≡ (activate_human_handoff sao_paulo wants_human (minutes 1) calm).effects
effects-activate_again_example =
    effects-activate_again sao_paulo wants_human (minutes 1) (minutes 9) calm (omega arith)

abbrev drafting : World
drafting = record calm { store = record empty_store { estados_entrega = ("5516", "{}") ∷ [] } }

is_recent_persisted_handoff-activate_example :
    is_recent_persisted_handoff
      (minutes 180)
      "5516"
      "cliente pediu humano"
      (minutes 200)
      (activate_human_handoff sao_paulo wants_human 0 calm).handoffs
    ≡ true
is_recent_persisted_handoff-activate_example =
    is_recent_persisted_handoff-activate sao_paulo wants_human 0 (minutes 200) calm

abbrev known : Process HandoffPayload
known = record {
  id = 1;
  phone = "5516";
  customer_id = none;
  process_type = "human_handoff";
  stage = "handoff_humano";
  status = "active";
  source = some "human_handoff";
  draft_payload = (handoff_upsert sao_paulo wants_human false).draft_payload;
  order_id = none;
  created_at = 0;
  updated_at = 0;
}

abbrev after_timeout : World
after_timeout = record calm { handoffs = record no_rows { rows = known ∷ []; next_id = 2 } }

is_duplicate-deactivate_example :
    is_duplicate sao_paulo wants_human
      (minutes 61)
      (deactivate_human_handoff "5516" (minutes 30) after_timeout).1
    ≡ true
unfolding get_process
is_duplicate-deactivate_example =
    is_duplicate-deactivate sao_paulo wants_human (minutes 30) (minutes 61) after_timeout known refl
      refl

get_process-upsert_process_example :
    get_process "5517" "human_handoff"
      (upsert_process (handoff_upsert sao_paulo wants_human false) 5 no_rows)
    ≡ get_process "5517" "human_handoff" no_rows
get_process-upsert_process_example =
    get_process-upsert_process "5517" "human_handoff" (handoff_upsert sao_paulo wants_human false) 5
      no_rows

abbrev failures : List ℕ
failures = minutes 1 ∷ minutes 2 ∷ minutes 3 ∷ minutes 20 ∷ minutes 40 ∷ minutes 41 ∷ []

abbrev three_in_half_an_hour : AlertSettings
three_in_half_an_hour = record { threshold = 3; window_minutes = 30 }

alerts_run :
    alerts three_in_half_an_hour failures (record { samples = []; last_alert = none })
    ≡ minutes 3 ∷ minutes 41 ∷ []
unfolding alerts chokobot.Handoff.Alerts.recent_samples
alerts_run = refl

alerts-IsSpaced_example :
    IsSpaced
      (minutes 30)
      none
      (alerts three_in_half_an_hour failures (record { samples = []; last_alert = none }))
alerts-IsSpaced_example =
    alerts-IsSpaced three_in_half_an_hour failures (record { samples = []; last_alert = none })
