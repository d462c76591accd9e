-- ===== src/Tests/Rows.antt =====
-- Rows of the table of processes.
use chokobot.Panel.{active_processes_by_phone, less, sort_key}
use chokobot.Panel.Selection.{IsAmong, first, later, active_processes_by_phone-IsAmong}
use chokobot.Processes.{Process, Repository, Upsert, upsert_process}
use chokobot.Processes.Active.{
  active_rows, order_rows, list_active_processes, ListsActive, list_active_processes-ListsActive,
}
use chokobot.Common.{lookup, some, false, ◌≡◌, ℕ, String, true, none, []}

abbrev writes : String → String → Upsert ℕ
writes phone status = record {
  phone = phone;
  customer_id = none;
  process_type = "delivery_order";
  stage = "coletando_endereco";
  status = status;
  source = none;
  draft_payload = 0;
  order_id = none;
}

abbrev table : Repository ℕ
table = upsert_process (writes "5516" "active") 30500000 (
    upsert_process (writes "5517" "completed") 20000000 (
      upsert_process (writes "5518" "active") 10900000
        (record { rows = []; next_id = 1; is_customer = λ _. true; is_order = λ _. true })))

list_active_processes-ListsActive_example : ListsActive table.rows (list_active_processes table)
list_active_processes-ListsActive_example = list_active_processes-ListsActive table

abbrev row : Process ℕ
row = record {
  id = 1;
  phone = "5518";
  customer_id = none;
  process_type = "delivery_order";
  stage = "coletando_endereco";
  status = "active";
  source = none;
  draft_payload = 0;
  order_id = none;
  created_at = 10000000;
  updated_at = 10000000;
}

active_processes_by_phone-IsAmong_example :
    (p : Process ℕ) × ((lookup "5518" (active_processes_by_phone table) ≡ some p)
      × (IsAmong p (list_active_processes table)
          × ((p.phone ≡ "5518") × (less (sort_key row) (sort_key p) ≡ false))))
unfolding list_active_processes upsert_process active_rows order_rows
active_processes_by_phone-IsAmong_example =
    active_processes_by_phone-IsAmong table row (later first)
