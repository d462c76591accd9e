-- ===== src/Tests/Orders.antt =====
-- Conversations of the order flows, from the first question to the order.
use chokobot.Common.{
  length, codes, ◌≡◌, refl, true, false, none, some, String, List, [], ◌∷◌, strip, one_of,
}
use chokobot.Processes.{Repository}
use chokobot.Flows.{FlowWorld, finalizar, is_finished}
use chokobot.Flows.Delivery
use chokobot.Flows.Delivery.Ordering.{
  another, nothing, run, execute-orders, run-ordered_for, ordered_for,
}
use chokobot.Flows.Delivery.Tracking.{tracked, tracked-execute}
use chokobot.Flows.Cafeteria
use chokobot.Flows.Cafeteria.Ordering
use chokobot.Flows.Cafeteria.Ordering.{run-AreItems, draft}
use chokobot.Flows.GiftBox
use chokobot.Flows.GiftBox.Ready.{is_ready}
use chokobot.Flows.GiftBox.Orders
use chokobot.Flows.GiftBox.Orders.{all_complete, run_complete}

abbrev empty_table {ℓ} : {P : Type ℓ} → Repository P
empty_table = record { rows = []; next_id = 1; is_customer = λ _. true; is_order = λ _. true }

abbrev quiet : {P O : Type 0} → FlowWorld P O
quiet = record { processes = empty_table; told = []; orders = [] }

abbrev gateway : Delivery.Surroundings
gateway = record {
  lower = λ t. t;
  has_bundle = false;
  create_order = λ _. 7;
  montar_resumo = λ _ _. some "resumo";
  money = λ _. "10.00";
  now = 5;
}

abbrev asking_address : Delivery.Estado
asking_address = record {
  etapa = Delivery.pedir_endereco;
  endereco = none;
  referencia = none;
  pedido = none;
  pagamento = none;
  data_agendada = none;
  nome = "Ana";
  cliente_id = none;
}

abbrev asking_confirmation : Delivery.Estado
asking_confirmation = record asking_address {
  etapa = Delivery.confirmar_entrega;
  endereco = some "Rua A, 1";
  referencia = some "portaria";
}

execute-orders_example :
    ((Delivery.execute gateway "5516" "sim" asking_confirmation quiet).2.orders
      ≡ Delivery.entrega_of gateway "5516" asking_confirmation ∷ [])
    × (is_finished (Delivery.execute gateway "5516" "sim" asking_confirmation quiet).0 ≡ true)
unfolding strip one_of
execute-orders_example = execute-orders gateway "5516" "sim" asking_confirmation quiet

run-ordered_for_example :
    ((run gateway "5516"
        ("Rua A, 1 " ∷ "portaria" ∷ "e agora?" ∷ "sim" ∷ [])
        asking_address
        quiet).0
      ≡ finalizar)
    × ((run gateway "5516"
          ("Rua A, 1 " ∷ "portaria" ∷ "e agora?" ∷ "sim" ∷ [])
          asking_address
          quiet).2.orders
        ≡ ordered_for gateway "5516" "Rua A, 1" "portaria" asking_address ∷ [])
unfolding strip one_of
run-ordered_for_example =
    run-ordered_for gateway "5516" "Rua A, 1 " "portaria" ("e agora?" ∷ []) "sim" asking_address
      quiet refl (another refl refl nothing) refl refl

tracked-execute_example :
    tracked gateway "5516" (Delivery.execute gateway "5516" "sim" asking_confirmation quiet).2
    ≡ some ("pedido_confirmado", "converted")
unfolding strip one_of
tracked-execute_example = tracked-execute gateway "5516" "sim" asking_confirmation quiet

abbrev choosing : Cafeteria.Estado
choosing = record {
  subetapa = Cafeteria.sem_subetapa;
  nome = some "Ana";
  itens = some ("café" ∷ []);
}

run-AreItems_example :
    let w' = (Ordering.run (λ t. t) 5 "5516" ("croissant" ∷ "finalizar" ∷ []) choosing quiet).2 in
    draft (λ t. t) 5 "5516" w'
    ≡ some ("pedido_confirmado", Cafeteria.payload_of ("café" ∷ "croissant" ∷ []))
unfolding one_of
run-AreItems_example =
    (run-AreItems (λ t. t) 5 "5516" ("croissant" ∷ []) "finalizar" ("café" ∷ []) choosing quiet refl
      refl (Ordering.another refl Ordering.nothing) refl).2

abbrev shop : GiftBox.Surroundings
shop = record {
  telefone = "5516";
  nome_cliente = "Ana";
  cliente_id = 1;
  lower = λ t. t;
  valida_data = λ _. true;
  validate_service_date = λ _. none;
  validate_service_schedule = λ _ _. none;
  parse_hora = λ t. some t;
  horario_entrega_permitido = λ _. true;
  read_amount = λ _. some 5000;
  money = λ _. "";
  write_id = λ _. "7";
  create_order = λ _. 7;
  has_bundle = true;
  now = 5;
}

abbrev answers : List String
answers = "3" ∷ "10/06/2026" ∷ "14:30" ∷ "2" ∷ "Rua A, 1" ∷ "sim" ∷ "1" ∷ []

abbrev new_draft : GiftBox.Estado
new_draft = record { etapa = GiftBox.selecao; dados = GiftBox.no_dados }

run_complete_example : all_complete shop (Orders.run shop answers new_draft quiet).2.orders ≡ true
unfolding is_ready all_complete
run_complete_example = (run_complete shop answers new_draft quiet refl refl).0

abbrev paying : GiftBox.Estado
paying = record {
  etapa = GiftBox.pagamento_forma;
  dados = record GiftBox.no_dados {
    modo = some GiftBox.retirada;
    pagamento = some (record { forma = none; troco_para = none });
  };
}

box_ordered_run : length (Orders.run shop ("4" ∷ "1" ∷ []) paying quiet).2.orders ≡ 1
unfolding Orders.run chokobot.Flows.GiftBox.Steps.process_cesta_box_flow
    chokobot.Flows.GiftBox.sync_cesta_process chokobot.Flows.GiftBox.Payment.take_payment
    chokobot.Flows.GiftBox.Payment.finish chokobot.Flows.GiftBox.Payment.salvar_pedido_cesta strip
box_ordered_run = refl

emoji_run : codes "1\u{fe0f}" ≡ 49 ∷ 65039 ∷ []
emoji_run = refl
