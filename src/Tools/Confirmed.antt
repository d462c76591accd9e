-- ===== src/Tools/Confirmed.antt =====
-- A tool that creates an order runs only after the customer has confirmed it.
use chokobot.Clock.{Codes}
use chokobot.Tools.{
  Session, Runtime, Effect, Kind, Outcome, consulted, escalated, order_created, session_saved, cake,
  sweet, cafeteria, gift, denies, is_blank, confirms, latest_user_message,
  has_explicit_confirmation, after_creation, after_draft, consulting_tools, create_branch,
  transfer_branch, handle_tool_call, is_saved_order_result, reset_session,
}
use chokobot.Common.{
  ◌≡◌, ◌∙◌, sym, refl, Bool, true, false, ◌&&◌, Option, none, some, String, List, [], ◌∷◌, str_eq,
  one_of, if◌then◌else◌, Bool-cases, inl, inr,
}

-- whether a tool that creates an order runs
pub creates : List Effect → Bool
creates [] = false
creates (order_created kind ∷ effects) = true
creates (_ ∷ effects) = creates effects

false-true : false ≡ true → ⊥
false-true h = cc

true_and_false : {b : Bool} → b ≡ true → b ≡ false → ⊥
true_and_false h e = false-true (sym e ∙ h)

module _ (r : Runtime) where
  -- what the customer has said, as it is compared
  abbrev pub said : Session → Codes
  said session = r.normalize_confirmation (latest_user_message session)

  -- a call in which a tool that creates an order runs only after a confirmation
  pub record IsCareful (session : Session) (o : Outcome) : Type 0 where
    pub confirmed :
        creates o.2 ≡ true
        → (has_explicit_confirmation r session ≡ true) × (denies (said session) ≡ false)

  branch :
      {session : Session} (b : Bool) (o o' : Outcome)
      → IsCareful session o
      → IsCareful session o'
      → IsCareful session (if b then o else o')
  branch true o o' h h' = h
  branch false o o' h h' = h'

  confirms-denies : (content : Codes) → confirms content ≡ true → denies content ≡ false
  unfolding confirms
  confirms-denies content h = elim (Bool-cases (denies content)) [
    | inr e ↦ e
    | inl e ↦ elim (Bool-cases (is_blank content)) [
      | inl f ↦ absurd (false-true (rw (confirms, f) at h))
      | inr f ↦ absurd (false-true (rw (confirms, f, e) at h))
    ]
  ]

  confirmed_text :
      (session : Session)
      → has_explicit_confirmation r session ≡ true
      → confirms (said session) ≡ true
  unfolding has_explicit_confirmation
  confirmed_text session h = h

  quiet : (session : Session) (o : Outcome) → creates o.2 ≡ false → IsCareful session o
  quiet session o h = record { confirmed = λ e. absurd (true_and_false e h) }

  after_draft-IsCareful :
      (kind : Kind) (session : Session) (o : Option Codes)
      → IsCareful session (after_draft r kind session o)
  unfolding after_draft creates
  after_draft-IsCareful kind session none = quiet session _ refl
  after_draft-IsCareful kind session (some answer) = quiet session _ refl

  create_branch-IsCareful :
      (kind : Kind) (session : Session) → IsCareful session (create_branch r kind session)
  unfolding creates create_branch
  create_branch-IsCareful kind session = elim (Bool-cases (r.is_valid kind session)) [
    | inr e ↦ rw (create_branch, e) (quiet session _ refl)
    | inl e ↦ elim (Bool-cases (has_explicit_confirmation r session)) [
      | inr f ↦ rw (create_branch, e, f) (after_draft-IsCareful kind session (r.save_draft kind))
      | inl f ↦ record {
        confirmed = λ h. (f, confirms-denies (said session) (confirmed_text session f));
      }
    ]
  ]

  transfer_branch-IsCareful :
      (session : Session) (agent : Option String)
      → IsCareful session (transfer_branch r session agent)
  unfolding transfer_branch creates
  transfer_branch-IsCareful session none = quiet session _ refl
  transfer_branch-IsCareful session (some agent) = elim (Bool-cases (r.is_agent agent)) [
    | inl e ↦ rw (transfer_branch, e) (quiet session _ refl)
    | inr e ↦ rw (transfer_branch, e) (quiet session _ refl)
  ]

  -- Whatever function the AI names, a tool that creates an order runs only where the last message of the
  -- customer is an explicit confirmation, and then that message, as it is compared, has no word nao.
  pub handle_tool_call-IsCareful :
      (function_name : String) (session : Session)
      → IsCareful session (handle_tool_call r function_name session)
  unfolding handle_tool_call creates
  handle_tool_call-IsCareful name session =
      let nothing : Outcome = ((false, []), session, []) in
      let consulting : Outcome = ((false, r.consult name), session, consulted name ∷ []) in
      let fresh = reset_session session in
      let leaving : Outcome = (
        (true, r.resolve_handoff_message r.escalate_to_human),
        fresh,
        escalated ∷ session_saved fresh ∷ [],
      ) in
      let gifts =
        branch (str_eq name "create_gift_order") (create_branch r gift session) nothing
          (create_branch-IsCareful gift session) (quiet session nothing refl) in
      let cafes =
        branch (str_eq name "create_cafeteria_order") (create_branch r cafeteria session) _
          (create_branch-IsCareful cafeteria session) gifts in
      let sweets =
        branch (str_eq name "create_sweet_order") (create_branch r sweet session) _
          (create_branch-IsCareful sweet session) cafes in
      let cakes =
        branch (str_eq name "create_cake_order") (create_branch r cake session) _
          (create_branch-IsCareful cake session) sweets in
      let people =
        branch (str_eq name "escalate_to_human") leaving _ (quiet session leaving refl) cakes in
      let readers =
        branch (one_of name consulting_tools) consulting _ (quiet session consulting refl) people in
      branch (str_eq name "transfer_to_agent") (transfer_branch r session r.agent_name) _
        (transfer_branch-IsCareful session r.agent_name) readers

  after_creation-creates :
      (kind : Kind) (session : Session) (o : Option Codes)
      → creates (after_creation r kind session o).2 ≡ true
  unfolding after_creation creates
  after_creation-creates kind session none = refl
  after_creation-creates kind session (some answer) =
      elim (Bool-cases (is_saved_order_result answer)) [
        | inl e ↦ rw (after_creation, e) refl
        | inr e ↦ rw (after_creation, e) refl
      ]

  after_draft-creates :
      (kind : Kind) (session : Session) (o : Option Codes)
      → creates (after_draft r kind session o).2 ≡ false
  unfolding after_draft creates
  after_draft-creates kind session none = refl
  after_draft-creates kind session (some answer) = refl

  create_branch-creates :
      (kind : Kind) (session : Session)
      → creates (create_branch r kind session).2
        ≡ (r.is_valid kind session && (has_explicit_confirmation r session && r.has_tool kind))
  unfolding create_branch creates
  create_branch-creates kind session = elim (Bool-cases (r.is_valid kind session)) [
    | inr e ↦ rw (create_branch, e) refl
    | inl e ↦ elim (Bool-cases (has_explicit_confirmation r session)) [
      | inr f ↦ rw (create_branch, e, f) (after_draft-creates kind session (r.save_draft kind))
      | inl f ↦ elim (Bool-cases (r.has_tool kind)) [
        | inr g ↦ rw (create_branch, e, f, g) refl
        | inl g ↦
            rw (create_branch, e, f, g) (after_creation-creates kind session (r.create_order kind))
      ]
    ]
  ]

-- the name of the tool that creates an order
abbrev pub tool_name : Kind → String
tool_name cake = "create_cake_order"
tool_name sweet = "create_sweet_order"
tool_name cafeteria = "create_cafeteria_order"
tool_name gift = "create_gift_order"

-- Where the AI names a tool that creates an order, the tool runs exactly when the order is valid, the
-- last message of the customer is an explicit confirmation, and the runtime has the tool.
pub handle_tool_call-creates :
    (r : Runtime) (kind : Kind) (session : Session)
    → creates (handle_tool_call r (tool_name kind) session).2
      ≡ (r.is_valid kind session && (has_explicit_confirmation r session && r.has_tool kind))
unfolding handle_tool_call one_of
handle_tool_call-creates r cake session = create_branch-creates r cake session
handle_tool_call-creates r sweet session = create_branch-creates r sweet session
handle_tool_call-creates r cafeteria session = create_branch-creates r cafeteria session
handle_tool_call-creates r gift session = create_branch-creates r gift session
