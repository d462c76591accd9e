-- ===== src/Tools.antt =====
-- The calls of tools that the AI makes, app/ai/tool_execution.py: `handle_tool_call`, and the test on an
-- explicit confirmation. A text is the list of its code points. The tools themselves are parameters:
-- an answer, or nothing where the source raises an exception.
pub mod Confirmed
use chokobot.Clock.{Codes, strip_codes}
use chokobot.Schedule.Calendar.{same_codes, member_codes}
use chokobot.Common.{
  ℕ, Bool, true, false, not, ◌&&◌, ◌||◌, Option, none, some, String, List, [], ◌∷◌, ◌++◌, Dict,
  remove, codes, str_eq, one_of, drop, map, ◌==◌, if◌then◌else◌,
}

-- a message of the session
pub record Turn : Type 0 where
  pub role : String
  pub content : Codes

-- the keys of the session that the calls read or write
pub record Session : Type 0 where
  pub messages : List Turn
  pub current_agent : Option String
  pub contexts : Dict Codes

pub data Kind : Type 0 where
  cake : Kind
  sweet : Kind
  cafeteria : Kind
  gift : Kind

-- What a call does outside the session. `order_created` is a run of the tool that creates an order, also
-- one that raises an exception, and `draft_saved` likewise.
pub data Effect : Type 0 where
  consulted : String → Effect
  escalated : Effect
  draft_saved : Kind → Effect
  order_created : Kind → Effect
  closure_recorded : Kind → Effect
  session_saved : Session → Effect

-- `text.startswith(prefix)`
unfoldable pub starts_with : Codes → Codes → Bool
starts_with [] text = true
starts_with (p ∷ ps) [] = false
starts_with (p ∷ ps) (c ∷ text) = let rest = starts_with ps text in p == c && rest

-- `part in text`
unfoldable pub contains : Codes → Codes → Bool
unfolding starts_with
contains part [] = starts_with part []
contains part (c ∷ text) = let rest = contains part text in starts_with part (c ∷ text) || rest

-- the words of a text, between spaces
pub words : Codes → List Codes
words [] = [] ∷ []
words (c ∷ text) = elim (words text) [
  | [] ↦ []
  | w ∷ ws ↦ if c == 32 then [] ∷ w ∷ ws else (c ∷ w) ∷ ws
]

-- `re.search(r"\bnao\b", content)`, on a normalized text, whose words stand between spaces
unfoldable pub denies : Codes → Bool
unfolding words member_codes
denies content = member_codes (codes "nao") (words content)

-- `_CONFIRMATION_MARKERS`
unfoldable pub confirmation_markers : List Codes
confirmation_markers =
    codes "sim"
    ∷ codes "ok"
    ∷ codes "ta"
    ∷ codes "ta bom"
    ∷ codes "certo"
    ∷ codes "confirmado"
    ∷ codes "confirma"
    ∷ codes "perfeito"
    ∷ codes "beleza"
    ∷ codes "isso"
    ∷ codes "confirmo"
    ∷ codes "sim confirma"
    ∷ codes "sim pode"
    ∷ codes "fechado"
    ∷ []

-- `_CONFIRMATION_PHRASE_MARKERS`
unfoldable pub phrase_markers : List Codes
phrase_markers =
    codes "pode fechar"
    ∷ codes "pode confirmar"
    ∷ codes "pedido confirmado"
    ∷ codes "pode salvar"
    ∷ []

-- `_SIM_POLITE_SUFFIXES`
unfoldable pub polite_suffixes : List Codes
polite_suffixes =
    codes "obrigada"
    ∷ codes "obrigado"
    ∷ codes "obg"
    ∷ codes "valeu"
    ∷ codes "brigada"
    ∷ codes "brigado"
    ∷ []

unfoldable pub any_contained : List Codes → Codes → Bool
unfolding contains
any_contained [] content = false
any_contained (m ∷ ms) content = let rest = any_contained ms content in contains m content || rest

unfoldable pub is_polite_sim : Codes → Bool
unfolding starts_with strip_codes member_codes polite_suffixes
is_polite_sim content =
    starts_with (codes "sim ") content
    && member_codes (strip_codes (drop 4 content)) polite_suffixes

unfoldable pub is_blank : Codes → Bool
is_blank [] = true
is_blank (c ∷ cs) = false

-- the tests of `_has_explicit_confirmation` on a normalized text
unfoldable pub confirms : Codes → Bool
unfolding is_blank denies member_codes confirmation_markers any_contained phrase_markers
    is_polite_sim
confirms content =
    if is_blank content
    then false
    else if denies content
    then false
    else member_codes content confirmation_markers
      || (any_contained phrase_markers content || is_polite_sim content)

-- the last message of the user with a content, from the front
unfoldable pub latest_of : Codes → List Turn → Codes
unfolding is_blank strip_codes
latest_of found [] = found
latest_of found (m ∷ messages) =
    if str_eq m.role "user" && not (is_blank m.content)
    then latest_of (strip_codes m.content) messages
    else latest_of found messages

unfoldable pub latest_user_message : Session → Codes
unfolding latest_of
latest_user_message session = latest_of [] session.messages

unfoldable pub reset_session : Session → Session
unfolding remove
reset_session session = record session {
  messages = [];
  contexts = remove "greeting_sent" (
      remove "conversation_correction_context"
        (remove "service_date_context" (remove "seasonal_context" session.contexts)));
}

-- the answers that say that an order is saved
unfoldable pub saved_openings : List Codes
saved_openings =
    codes "Pedido salvo com sucesso!"
    ∷ codes "Pedido de doces salvo com sucesso!"
    ∷ codes "Pedido cafeteria salvo com sucesso!"
    ∷ codes "Pedido presente salvo com sucesso!"
    ∷ []

unfoldable pub starts_any : List Codes → Codes → Bool
unfolding starts_with
starts_any [] text = false
starts_any (p ∷ ps) text = let rest = starts_any ps text in starts_with p text || rest

unfoldable pub is_saved_order_result : Codes → Bool
unfolding starts_any saved_openings
is_saved_order_result = starts_any saved_openings

-- the tools of one call: its arguments are those of the parameters
pub record Runtime : Type 0 where
  -- `_normalize_confirmation_content`
  pub normalize_confirmation : Codes → Codes
  pub agent_name : Option String
  pub is_agent : String → Bool
  pub transfer_message_for_agent : String → Codes
  pub consult : String → Codes
  pub escalate_to_human : Codes
  pub resolve_handoff_message : Codes → Codes
  -- the order is valid, after the date and the corrections of the session are put in
  pub is_valid : Kind → Session → Bool
  pub has_tool : Kind → Bool
  pub save_draft : Kind → Option Codes
  pub create_order : Kind → Option Codes
  pub invalid_message : Kind → Codes
  pub unavailable_message : Kind → Codes
  pub final_saved_order_message : Codes → Codes

-- whether the loop of the AI ends, the text, the session, and what was done, in order
abbrev pub Outcome : Type 0
Outcome = (Bool × Codes) × Session × List Effect

-- the tools that answer with a text and leave the session as it is
abbrev pub consulting_tools : List String
consulting_tools =
    "get_menu" ∷ "lookup_catalog_items" ∷ "get_cake_pricing" ∷ "get_cake_options" ∷ "get_learnings"
    ∷ "save_learning" ∷ []

module _ (r : Runtime) where
  unfoldable pub has_explicit_confirmation : Session → Bool
  unfolding confirms latest_user_message
  has_explicit_confirmation session =
      confirms (r.normalize_confirmation (latest_user_message session))

  -- the answer of a tool that creates an order
  unfoldable pub after_creation : Kind → Session → Option Codes → Outcome
  unfolding is_saved_order_result reset_session
  after_creation kind session none =
      ((false, r.invalid_message kind), session, order_created kind ∷ [])
  after_creation kind session (some answer) =
      let fresh = reset_session session in
      if is_saved_order_result answer
      then (
        (true, r.final_saved_order_message answer),
        fresh,
        order_created kind ∷ closure_recorded kind ∷ session_saved fresh ∷ [],
      )
      else ((false, answer), session, order_created kind ∷ [])

  unfoldable pub after_draft : Kind → Session → Option Codes → Outcome
  after_draft kind session none = ((false, r.invalid_message kind), session, draft_saved kind ∷ [])
  after_draft kind session (some answer) = ((false, answer), session, draft_saved kind ∷ [])

  -- the branch of one of the four tools that create an order
  unfoldable pub create_branch : Kind → Session → Outcome
  unfolding has_explicit_confirmation after_creation after_draft
  create_branch kind session =
      if not (r.is_valid kind session)
      then ((false, r.invalid_message kind), session, [])
      else if not (has_explicit_confirmation session)
      then after_draft kind session (r.save_draft kind)
      else if not (r.has_tool kind)
      then ((false, r.unavailable_message kind), session, [])
      else after_creation kind session (r.create_order kind)

  unfoldable pub transfer_branch : Session → Option String → Outcome
  transfer_branch session none = ((false, codes "Erro: Agente None não existe."), session, [])
  transfer_branch session (some agent) =
      let moved = record session { current_agent = some agent } in
      if r.is_agent agent
      then ((false, r.transfer_message_for_agent agent), moved, session_saved moved ∷ [])
      else ((false, codes "Erro: Agente " ++ codes agent ++ codes " não existe."), session, [])

  unfoldable pub handle_tool_call : String → Session → Outcome
  unfolding create_branch transfer_branch reset_session one_of
  handle_tool_call function_name session =
      let fresh = reset_session session in
      if str_eq function_name "transfer_to_agent"
      then transfer_branch session r.agent_name
      else if one_of function_name consulting_tools
      then ((false, r.consult function_name), session, consulted function_name ∷ [])
      else if str_eq function_name "escalate_to_human"
      then (
        (true, r.resolve_handoff_message r.escalate_to_human),
        fresh,
        escalated ∷ session_saved fresh ∷ [],
      )
      else if str_eq function_name "create_cake_order"
      then create_branch cake session
      else if str_eq function_name "create_sweet_order"
      then create_branch sweet session
      else if str_eq function_name "create_cafeteria_order"
      then create_branch cafeteria session
      else if str_eq function_name "create_gift_order"
      then create_branch gift session
      else ((false, []), session, [])
