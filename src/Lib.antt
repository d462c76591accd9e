-- ===== src/Lib.antt =====
-- Chokobot: a WhatsApp assistant of a bakery. A customer's message is answered by an AI, or by a
-- person who has taken the conversation over. This library models the core of that in eleven parts:
--
-- * Inbound (app/application/use_cases/process_inbound_message.py): `process_inbound_message` is a
--   sequence of stages, one for each early return of the source and in its order (Inbound/Stages and
--   Inbound/Run). A stage takes the world to the world after it and says whether the processing goes
--   on. Inbound also has `_send_message`, by way of `responder_usuario_com_contexto`
--   (app/utils/mensagens.py).
-- * Handoff (app/application/use_cases/manage_human_handoff.py): `activate_human_handoff` and
--   `deactivate_human_handoff` on the world, with the tests for duplicates and the metrics;
--   Handoff/Alerts has the alerts of repeated failures, and Reasons how a reason is classified.
-- * Store (app/infrastructure/state/conversation_state_store.py): the runtime state of the
--   conversations, one dictionary for each namespace, with every operation of
--   `ConversationStateStore`; Store/Trim has `_trim_namespace`.
-- * Processes (app/infrastructure/repositories/sqlite_customer_process_repository.py): the table of
--   customer processes, where a handoff outlives the runtime state.
-- * Flows (the order flows of the menus, which collect a draft question by question): Flows/Delivery is
--   `ProcessDeliveryFlow.execute` (app/application/use_cases/process_delivery_flow.py), Flows/Cafeteria
--   `process_cafeteria_flow` (app/application/use_cases/process_cafeteria_flow.py), Flows/GiftBox
--   `process_cesta_box_flow` (app/application/use_cases/process_cesta_box_flow.py), with a file for its
--   texts, its steps and its payment. Flows/Cake is `processar_encomenda` (app/services/encomendas.py),
--   with a definition for each etapa in Lines, Parties, Dates, Receiving, ReadyMade and Closing, the
--   order of a draft in Draft, its summary in Summary, and the whole in Steps; an exception of the
--   prices is a reply of its own. Amounts are in cents. A flow changes its draft, the table of
--   processes, the texts told to the customer and the orders handed to the gateway.
-- * Security (app/security.py): the replay cache of the webhook, and in Security/Access the guards
--   `verify_webhook_secret` and `require_panel_auth`; Security/Phones has the phones that the
--   automation leaves alone.
-- * Clock (app/services/encomendas_utils.py): times of day as texts, `_parse_hora` and
--   `_horario_entrega_permitido`. A text is the list of its code points here and in Schedule.
-- * Schedule (app/services/store_schedule.py, app/services/commercial_rules.py): Schedule/Week is the
--   part of the week in which the AI answers, Schedule/Dates and Schedule/ServiceDate the dates and
--   their texts, Schedule/Calendar the operational calendar and the opening hours, Schedule/Capacity
--   the capacity of days and slots, and Schedule/Validation what the store says to a date and a time.
-- * Prices (app/services/precos.py): the tables of cakes and `calcular_total`, with the exceptions of
--   Python as results and amounts in whole reais. Prices/Drafts is `_monta_pedido_final`
--   (app/services/encomendas.py), the order that a draft of the cake flow becomes, as far as it is priced;
--   Prices/Sweets is `parse_doces_input`, in cents.
-- * Tools (app/ai/tool_execution.py): `handle_tool_call`, by which the AI consults, hands over to a person
--   and creates orders, and the test on an explicit confirmation.
-- * Panel (app/application/use_cases/panel_dashboard.py): what a process lacks, who acts next, and the
--   process that is shown for each phone.
--
-- The parts meet in the world of Handoff: the runtime state, the table of handoffs, the failures seen
-- for each topic, and the effects so far (texts handed to the gateway, events, audit lines,
-- questions to the AI, pauses). Inbound calls the handoff operations and the store on that world.
--
-- Instants are numbers of microseconds; the times that SQLite writes (CURRENT_TIMESTAMP) are cut to
-- whole seconds. Where the source reads the clock the instant is an argument,
-- and a text with a date has its place in the order of texts and the instant that it parses to. The
-- state backends differ for the model in one point: whether a value that is read is the stored object
-- (memory) or a copy (SQLite, Redis), which is the type Sharing of Inbound. There is no fuel: every
-- loop of the source runs over a list, or a number of times that the source gives.
--
-- Parameters: the AI, the messaging and the order gateway, the customer repository, the tests on
-- phones, the digits of Unicode, `str.lower`, SHA-1, `_normalize_text` and the rewriting of an
-- outgoing text; for the orders of cakes also `strptime`, the match of a sweet by its expression,
-- `float` and the writing of an amount. The flows take `_parse_hora` and
-- `_horario_entrega_permitido` as parameters on texts; Clock has them on code points. A setting that
-- is a fraction of minutes or seconds in the source is a whole number. Not modelled: logs; the text
-- of the context of a handoff and the message to the customer; dates in free text, the AI and its
-- tools, the other views of the panel, SQL of the other tables and HTTP routes.
pub mod Common
pub mod Reasons
pub mod Store
pub mod Processes
pub mod Handoff
pub mod Inbound
pub mod Flows
pub mod Security
pub mod Clock
pub mod Schedule
pub mod Prices
pub mod Tools
pub mod Panel
mod Tests
