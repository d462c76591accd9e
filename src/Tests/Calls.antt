-- ===== src/Tests/Calls.antt =====
-- Calls of tools.
use chokobot.Tools.{Session, Runtime, cake, handle_tool_call, has_explicit_confirmation}
use chokobot.Tools.Confirmed.{
  creates, IsCareful, tool_name, handle_tool_call-IsCareful, handle_tool_call-creates,
}
use chokobot.Common.{◌≡◌, refl, true, false, ◌&&◌, none, some, String, [], ◌∷◌, codes}

abbrev runtime : Runtime
runtime = record {
  normalize_confirmation = λ t. t;
  agent_name = none;
  is_agent = λ _. false;
  transfer_message_for_agent = λ _. [];
  consult = λ _. [];
  escalate_to_human = [];
  resolve_handoff_message = λ t. t;
  is_valid = λ _ _. true;
  has_tool = λ _. true;
  save_draft = λ _. some (codes "rascunho");
  create_order = λ _. some (codes "Pedido salvo com sucesso! ID: 7");
  invalid_message = λ _. codes "Erro";
  unavailable_message = λ _. [];
  final_saved_order_message = λ t. t;
}

abbrev after : String → Session
after text = record {
  messages =
      record { role = "user"; content = codes "quero um bolo" }
      ∷ record { role = "assistant"; content = codes "Posso confirmar?" }
      ∷ record { role = "user"; content = codes text }
      ∷ [];
  current_agent = some "CakeOrderAgent";
  contexts = [];
}

handle_tool_call-IsCareful_example :
    IsCareful runtime
      (after "pode fechar")
      (handle_tool_call runtime "create_cake_order" (after "pode fechar"))
handle_tool_call-IsCareful_example =
    handle_tool_call-IsCareful runtime "create_cake_order" (after "pode fechar")

handle_tool_call-creates_example :
    creates (handle_tool_call runtime (tool_name cake) (after "sim obrigada")).2
    ≡ (true && (has_explicit_confirmation runtime (after "sim obrigada") && true))
handle_tool_call-creates_example = handle_tool_call-creates runtime cake (after "sim obrigada")

sim_creates : has_explicit_confirmation runtime (after "sim obrigada") ≡ true
unfolding has_explicit_confirmation
sim_creates = refl

nao_creates_nothing : has_explicit_confirmation runtime (after "nao pode fechar") ≡ false
unfolding has_explicit_confirmation
nao_creates_nothing = refl
