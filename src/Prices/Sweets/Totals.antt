-- ===== src/Prices/Sweets/Totals.antt =====
-- What the reading of sweets returns.
use chokobot.Prices.Sweets.{
  Doce, Reading, Doces, unknown_doce, doces, find_doce, add_doce, take_doce, parse_parts,
  parse_doces_input, pieces,
}
use chokobot.Prices.Sweets.Menu.{doces_unitarios}
use chokobot.Common.{
  if◌then◌else◌, ℕ, ◌+◌, ◌≡◌, refl, Bool, true, false, ◌&&◌, some, String, List, [], ◌∷◌, Dict,
  strip, str_eq, arith, ◌==◌, eq_refl,
}

unfoldable pub sum_precos : List Doce → ℕ
sum_precos [] = 0
sum_precos (d ∷ ds) = d.preco + sum_precos ds

-- a sweet of the menu at its price there
unfoldable pub is_listed : Dict ℕ → Doce → Bool
is_listed [] d = false
is_listed ((can, unit) ∷ menu) d =
    let later = is_listed menu d in if str_eq can d.nome && unit == d.unit then true else later

unfoldable pub all_listed : List Doce → Bool
all_listed [] = true
all_listed (d ∷ ds) = is_listed doces_unitarios d && all_listed ds

-- the total is the sum of the prices, and every sweet is on the menu
unfoldable pub is_settled : Doces → Bool
is_settled (unknown_doce problem) = true
is_settled (doces itens total) = all_listed itens && total == sum_precos itens

settled-unknown : (problem : String) → is_settled (unknown_doce problem) ≡ true
unfolding is_settled
settled-unknown problem = refl

module _ (r : Reading) where
  find_doce-is_listed :
      (nome can : String) (unit qtd preco : ℕ) (menu : Dict ℕ)
      → find_doce r nome menu ≡ some (can, unit)
      → is_listed menu (record { nome = can; qtd = qtd; preco = preco; unit = unit }) ≡ true
  unfolding find_doce is_listed
  find_doce-is_listed nome can unit qtd preco [] h = ground arith
  find_doce-is_listed nome can unit qtd preco ((k, u) ∷ menu) h =
      ground (arith, eq_refl can, find_doce-is_listed nome can unit qtd preco menu)

  settled-add_doce :
      (d : Doce) (later : Doces)
      → is_listed doces_unitarios d ≡ true
      → is_settled later ≡ true
      → is_settled (add_doce d later) ≡ true
  unfolding is_settled add_doce sum_precos all_listed
  settled-add_doce d (unknown_doce problem) h s = refl
  settled-add_doce d (doces itens total) h s = ground arith

  settled-take_doce :
      (p : String) (later : Doces)
      → is_settled later ≡ true
      → is_settled (take_doce r p later) ≡ true
  unfolding take_doce
  settled-take_doce p later s =
      grind (arith, settled-unknown, find_doce-is_listed, settled-add_doce)

  settled-parse_parts : (ps : List String) → is_settled (parse_parts r ps) ≡ true
  unfolding parse_parts is_settled sum_precos all_listed
  settled-parse_parts [] = refl
  settled-parse_parts (p ∷ ps) = ground (
    arith,
    settled-parse_parts ps,
    settled-take_doce (strip p) (parse_parts r ps) (settled-parse_parts ps),
  )

  -- Whatever sweets are read from a text are on the menu at its unit prices, and their total is the sum
  -- of the prices of the items.
  pub parse_doces_input-is_settled :
      (texto : String) → is_settled (parse_doces_input r texto) ≡ true
  unfolding parse_doces_input
  parse_doces_input-is_settled texto = settled-parse_parts ((pieces texto).0 ∷ (pieces texto).1)
