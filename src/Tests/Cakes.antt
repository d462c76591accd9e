-- ===== src/Tests/Cakes.antt =====
-- Conversations of the cake flow.
use chokobot.Common.{
  ◌≡◌, refl, true, false, none, some, String, List, [], ◌∷◌, strip, one_of, not, if◌then◌else◌, map,
}
use chokobot.Processes.{Repository}
use chokobot.Prices.Totals
use chokobot.Prices.Sweets
use chokobot.Prices.Sweets.Totals.{is_settled, parse_doces_input-is_settled}
use chokobot.Flows.{FlowWorld, finalizar}
use chokobot.Flows.Delivery
use chokobot.Flows.Delivery.Ordering
use chokobot.Flows.Delivery.Ordering.{another, nothing}
use chokobot.Flows.Cake
use chokobot.Flows.Cake.Stages
use chokobot.Flows.Cake.Orders.{run}
use chokobot.Flows.Cake.Endings.{
  is_raised, saved_by_pix, run-finishes, processar_encomenda-has_price,
}
use chokobot.Flows.Cake.Steps.{processar_encomenda}
use chokobot.Flows.Cake.Receiving.{delivery_estado}
use chokobot.Flows.Cake.Draft.{priced_part}
use chokobot.Prices.Drafts.Computed.{has_price}
use chokobot.Flows.Cake.Delivered.{terms, saved_terms, run-delivery_estado}

abbrev empty_table {ℓ} : {P : Type ℓ} → Repository P
empty_table = record { rows = []; next_id = 1; is_customer = λ _. true; is_order = λ _. true }

abbrev quiet : {P O : Type 0} → FlowWorld P O
quiet = record { processes = empty_table; told = []; orders = [] }

-- a change of case that changes nothing
abbrev casing : Totals.Casing
casing = record { upper = λ t. t; lower = λ t. t; title = λ t. t }

abbrev reading : Sweets.Reading
reading = record {
  casing = casing;
  strip_accents = λ t. t;
  match_item = λ t. some (t, 25, none);
  read_float = λ _. none;
}

abbrev shop : Cake.Surroundings
shop = record {
  telefone = "5516";
  nome_cliente = "Ana";
  cliente_id = 3;
  casing = casing;
  capitalize = λ t. t;
  iso_date = λ _. some "2026-12-24";
  tomorrow = "24/12/2026";
  parse_hora = λ t. some t;
  horario_entrega_permitido = λ _. true;
  limite_horario_entrega = "17:30";
  reading = reading;
  read_amount = λ _. some 5000;
  money = λ _. "10.00";
  write_number = λ _. "1";
  doces_url = "https://";
  create_order = λ _. 7;
  has_bundle = true;
  now = 5;
}

abbrev starting : Cake.Estado
starting = record {
  etapa = Stages.etapa_1;
  linha = none;
  modo_recebimento = none;
  dados = Cake.no_dados;
}

abbrev conversation : List String
conversation =
    "1" ∷ "branca" ∷ "Brigadeiro + Ninho" ∷ "B3" ∷ "não" ∷ "24/12/2026" ∷ "14:00" ∷ "não" ∷ "1"
    ∷ "1" ∷ "1" ∷ "1" ∷ []

abbrev a_baby_cake : Cake.Estado
a_baby_cake = record starting {
  etapa = Stages.etapa_6;
  dados = record Cake.no_dados { linha = some "babycake" };
}

abbrev pickup : Cake.Reply × Cake.Estado × Cake.CakeWorld
pickup = processar_encomenda shop "1" a_baby_cake quiet

processar_encomenda-has_price_example :
    (is_raised pickup.0 ≡ not (has_price casing (priced_part a_baby_cake.dados)))
    × (pickup.1.etapa ≡ (
        if has_price casing (priced_part a_baby_cake.dados)
        then Stages.confirmar_pedido
        else Stages.etapa_6))
unfolding strip one_of
processar_encomenda-has_price_example =
    processar_encomenda-has_price shop "1" a_baby_cake quiet refl refl refl

abbrev a_cake : Cake.CakeOrder
a_cake = record {
  priced = record {
    categoria = some "tradicional";
    tamanho = some (some "B3");
    fruta_ou_nozes = none;
    pedacos = none;
    produto = none;
    cobertura = none;
    kit_festou = false;
    quantidade = none;
  };
  data_entrega = some "24/12/2026";
  horario_retirada = some "14:00";
  descricao = some "Branca | Brigadeiro + Ninho";
  doces_itens = some [];
  doces_total = 0;
  doces_forminha = some [];
  valor_total = some 12000;
  serve_pessoas = some 15;
}

run-finishes_example :
    ((run shop
        ("2" ∷ "1" ∷ "1" ∷ [])
        (record starting {
          etapa = Stages.confirmar_pedido;
          dados = record Cake.no_dados { pedido_preview = some a_cake };
        })
        quiet).0
      ≡ Cake.replies finalizar)
    × ((run shop
          ("2" ∷ "1" ∷ "1" ∷ [])
          (record starting {
            etapa = Stages.confirmar_pedido;
            dados = record Cake.no_dados { pedido_preview = some a_cake };
          })
          quiet).2.orders
        ≡ Cake.order_requested (saved_by_pix shop starting a_cake) ∷ [])
run-finishes_example = run-finishes shop "2" starting quiet a_cake refl refl refl

parse_doces_input-is_settled_example :
    is_settled (Sweets.parse_doces_input reading "Beijinho x25;Casadinho") ≡ true
parse_doces_input-is_settled_example = parse_doces_input-is_settled reading "Beijinho x25;Casadinho"

abbrev flow : Delivery.Surroundings
flow = record {
  lower = λ t. t;
  has_bundle = false;
  create_order = λ _. 7;
  montar_resumo = λ _ _. some "resumo";
  money = λ _. "10.00";
  now = 5;
}

abbrev delivering : List String
delivering = "Rua A, 1 " ∷ "portaria" ∷ "e agora?" ∷ "sim" ∷ []

run-delivery_estado_example :
    let s = saved_by_pix shop starting a_cake in
    let (outcome, _, w') = Ordering.run flow "5516" delivering (delivery_estado shop s) quiet in
    (outcome ≡ finalizar) × (map terms w'.orders ≡ saved_terms s ∷ [])
unfolding strip one_of
run-delivery_estado_example =
    run-delivery_estado shop flow (saved_by_pix shop starting a_cake) "Rua A, 1 " "portaria"
      ("e agora?" ∷ []) "sim" quiet (another refl refl nothing) refl refl
