-- ===== src/Prices/Sweets.antt =====
-- `parse_doces_input` (app/services/precos.py): the sweets that a customer writes down, and their
-- prices, in cents.
pub mod Menu
pub mod Totals
use chokobot.Prices.Totals.{Casing}
use chokobot.Prices.Sweets.Menu.{doces_unitarios}
use chokobot.Common.{
  ℕ, ◌+◌, ◌*◌, Bool, ◌||◌, Option, none, some, String, List, [], ◌∷◌, Dict, strip, str_eq, join,
  if◌then◌else◌,
}
use Prim.Native.Char.{Char, code}
use chokobot.Common.{◌==◌}

-- an entry of `doces_itens`
pub record Doce : Type 0 where
  pub nome : String
  pub qtd : ℕ
  pub preco : ℕ
  pub unit : ℕ

-- What the reading is given: the change of case; `_strip_accents`, which is the NFKD of Unicode without
-- the combining characters; the match of an item by the expression for `nome x qtd` or
-- `nome x qtd = preco`; and `float` rounded to cents, none where it raises.
pub record Reading : Type 0 where
  pub casing : Casing
  pub strip_accents : String → String
  pub match_item : String → Option (String × ℕ × Option String)
  pub read_float : String → Option ℕ

-- the sweets and their price, or the text of the ValueError
pub data Doces : Type 0 where
  unknown_doce : String → Doces
  doces : List Doce → ℕ → Doces

-- the text with each of its characters of one code replaced
unfoldable pub replace_code : ℕ → String → String → String
replace_code a by String.[] = ""
replace_code a by (String.◌∷◌ x s) =
    let rest = replace_code a by s in
    if code x == a then join "" (by ∷ rest ∷ []) else String.◌∷◌ x rest

-- The pieces between semicolons and ends of lines. A run of them leaves empty pieces, which are
-- skipped.
unfoldable pub pieces : String → String × List String
pieces String.[] = ("", [])
pieces (String.◌∷◌ x s) =
    let (piece, later) = pieces s in
    if code x == b';' || code x == 10 then ("", piece ∷ later) else (String.◌∷◌ x piece, later)

unfoldable pub price_of : ℕ → ℕ → Option ℕ → ℕ
price_of unit qtd none = unit * qtd
price_of unit qtd (some preco) = preco

unfoldable pub add_doce : Doce → Doces → Doces
add_doce d (unknown_doce problem) = unknown_doce problem
add_doce d (doces itens total) = doces (d ∷ itens) (d.preco + total)

module _ (r : Reading) where
  unfoldable pub to_float_brl : String → ℕ
  unfolding strip
  to_float_brl num_str =
      elim (r.read_float (replace_code b',' "." (replace_code b'.' "" (strip num_str)))) [
        | none ↦ 0
        | some n ↦ n
      ]

  unfoldable pub norm : String → String
  unfolding strip
  norm s = strip (r.casing.lower (r.strip_accents s))

  -- the first name of the menu that is the same once normalised, with its price
  unfoldable pub find_doce : String → Dict ℕ → Option (String × ℕ)
  unfolding norm
  find_doce nome [] = none
  find_doce nome ((can, unit) ∷ menu) =
      let later = find_doce nome menu in if str_eq (norm can) nome then some (can, unit) else later

  -- the name, the quantity and the price that the customer gives
  unfoldable pub read_item : String → String × ℕ × Option ℕ
  unfolding strip to_float_brl
  read_item p = elim (r.match_item p) [
    | none ↦ (strip p, 1, none)
    | some (nome, qtd, none) ↦ (strip nome, qtd, none)
    | some (nome, qtd, some preco) ↦ (strip nome, qtd, some (to_float_brl preco))
  ]

  -- one part, before the later ones
  unfoldable pub take_doce : String → Doces → Doces
  take_doce p later =
      let (nome, qtd, preco) = read_item p in
      elim (find_doce (norm nome) doces_unitarios) [
        | none ↦ unknown_doce (
            join "" (
              "⚠\u{fe0f} Doce não reconhecido: " ∷ nome
              ∷ ". Digite exatamente como está no cardápio." ∷ []))
        | some (can, unit) ↦
            add_doce
              (record { nome = can; qtd = qtd; preco = price_of unit qtd preco; unit = unit }) later
      ]

  unfoldable pub parse_parts : List String → Doces
  unfolding strip take_doce
  parse_parts [] = doces [] 0
  parse_parts (p ∷ ps) =
      let later = parse_parts ps in if str_eq (strip p) "" then later else take_doce (strip p) later

  unfoldable pub parse_doces_input : String → Doces
  unfolding pieces parse_parts
  parse_doces_input texto = let (piece, later) = pieces texto in parse_parts (piece ∷ later)
