-- ===== src/Flows.antt =====
-- The order flows of the menus: what each answer of a customer does to the draft of an order. A flow
-- is a function of the draft and of the world around it.
pub mod Delivery
pub mod Cafeteria
pub mod GiftBox
pub mod Cake
use chokobot.Processes.{Repository}
use chokobot.Common.{String, Bool, true, false, List, ◌∷◌}

-- The table of processes, whose payloads are of the flow's own type, and what the flow has done
-- beside it, the latest first: texts to the customer, and whatever the flow orders.
pub record FlowWorld (P O : Type 0) : Type 0 where
  pub processes : Repository P
  pub told : List String
  pub orders : List O

module _ {P O : Type 0} where
  -- `responder_usuario_fn(telefone, …)`
  abbrev pub tell : String → FlowWorld P O → FlowWorld P O
  tell body w = record w { told = body ∷ w.told }

  abbrev pub order : O → FlowWorld P O → FlowWorld P O
  order o w = record w { orders = o ∷ w.orders }

-- What a flow tells its caller: `None`, or the text that ends it.
pub data Outcome : Type 0 where
  unfinished finalizar voltar_menu : Outcome

-- whether the flow is over
abbrev pub is_finished : Outcome → Bool
is_finished unfinished = false
is_finished _ = true
