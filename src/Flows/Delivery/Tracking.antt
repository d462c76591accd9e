-- ===== src/Flows/Delivery/Tracking.antt =====
-- What the table of processes says of a delivery while its flow runs.
use chokobot.Processes.{Process, get_process, merge_row, new_row}
use chokobot.Processes.Laws.{get_process-upsert_process}
use chokobot.Flows.Delivery.{
  Estado, Surroundings, DeliveryWorld, Pedido, execute, take_address, take_reference,
  answer_confirmation, confirm, entrega_of, save_process, delivery_upsert, pedir_endereco,
  pedir_referencia, confirmar_entrega, desconhecida,
}
use chokobot.Flows.Delivery.Ordering.{confirms, corrects}
use chokobot.Common.{ℕ, String, ◌≡◌, Option, none, some, arith, eq_refl, ◌==◌, if◌then◌else◌}

-- stage and status of a row
abbrev pub stage_of : Option (Process Pedido) → Option (String × String)
stage_of none = none
stage_of (some p) = some (p.stage, p.status)

module _ (c : Surroundings) (telefone : String) where
  abbrev pub tracked : DeliveryWorld → Option (String × String)
  tracked w = stage_of (get_process telefone "delivery_order" w.processes)

  -- What the table says after an answer, of the answer and of what it said before.
  abbrev pub expected : String → Estado → Option (String × String) → Option (String × String)
  expected texto e before = elim e.etapa [
    | pedir_endereco ↦ before
    | pedir_referencia ↦ some ("aguardando_confirmacao", "active")
    | confirmar_entrega ↦
        if confirms c telefone texto
        then if c.create_order (entrega_of c telefone e) == 0
          then before
          else if c.has_bundle
          then before
          else some ("pedido_confirmado", "converted")
        else if corrects c telefone texto
        then some ("coletando_endereco", "active")
        else before
    | desconhecida ↦ before
  ]

  tracked-save_process :
      (e : Estado) (stage status : String) (p : Pedido) (id : Option ℕ) (w : DeliveryWorld)
      → tracked (save_process c telefone e stage status p id w) ≡ some (stage, status)
  unfolding save_process merge_row new_row
  tracked-save_process e stage status p id w =
      rw
        (get_process-upsert_process telefone "delivery_order"
          (delivery_upsert c telefone e stage status p id) c.now w.processes)
        (ground (arith, eq_refl telefone))

  -- After each answer the table has the stage of the flow: the order waits for its confirmation, is
  -- confirmed, or collects the address again. All other answers leave what it had. With
  -- `create_order_bundle` it is the gateway that writes the confirmation.
  pub tracked-execute :
      (texto : String) (e : Estado) (w : DeliveryWorld)
      → tracked (execute c telefone texto e w).2 ≡ expected texto e (tracked w)
  unfolding execute take_address take_reference answer_confirmation confirm
  tracked-execute texto e w = grind (arith, tracked-save_process)
