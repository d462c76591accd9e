-- ===== src/Flows/Cake/Priced.antt =====
-- That the entries which an order leaves in the draft are the ones that its total is for.
use mathlib.Core.Path.{subst}
use chokobot.Schedule.Calendar.{ℤ, pos}
use chokobot.Prices.Totals.{
  Result, fails, priced, calcular_total, base_price, category_price, total_of, traditional_item,
  price_in, calcular_preco_simples, servings, times,
}
use chokobot.Prices.Totals
use chokobot.Prices.Drafts
use chokobot.Prices.Drafts.{
  linha_canonica, is_sized, monta_pedido_final, order_for, order_of, or_text,
}
use chokobot.Flows.Cake.{CakeOrder, Dados, Surroundings}
use chokobot.Flows.Cake.Draft.{
  priced_part, cake_order, with_total, update, in_cents, updated, or_zero,
}
use chokobot.Common.{
  ℕ, ◌+◌, String, ◌≡◌, refl, Bool, true, false, ◌&&◌, Option, none, some, ◌==◌, arith, ap,
  if◌then◌else◌, is_some,
}

-- the order of the entries of a draft, whatever their line
unfoldable pub repriced : Dados → Totals.Pedido
repriced d = record {
  categoria = d.categoria;
  tamanho = some d.tamanho;
  fruta_ou_nozes = d.fruta_ou_nozes;
  pedacos = none;
  produto = some d.produto;
  cobertura = none;
  kit_festou = d.kit_festou;
  quantidade = some (pos 1);
}

abbrev pub serves : Option ℕ → ℕ → Bool
serves none n = false
serves (some m) n = m == n

-- whether a total and the people served are the ones of a price, with something added
unfoldable pub matches : ℕ → Option ℕ → ℕ → Result (ℤ × ℕ) → Bool
matches total people extra (fails e) = false
matches total people extra (priced (t, serve)) = total == in_cents t + extra && serves people serve

-- what the order of a draft is: with a size and a fruit, or with a product
data OrderShape (casing : Totals.Casing) (d : Drafts.Dados) : Totals.Pedido → Type 0 where
  with_size :
      (f : Option String)
      → OrderShape casing d (order_of casing d "tradicional" (some d.tamanho) none f)
  english : OrderShape casing d (order_of casing d "ingles" none (some d.produto) none)
  round : OrderShape casing d (order_of casing d "redondo" none (some d.produto) none)
  pie : OrderShape casing d (order_of casing d "torta" none (some d.produto) none)

module _ (casing : Totals.Casing) (d : Drafts.Dados) where
  -- the same of an order that a test may hide
  either :
      (b : Bool) {p q : Totals.Pedido}
      → OrderShape casing d p
      → OrderShape casing d q
      → OrderShape casing d (if b then p else q)
  either true h k = h
  either false h k = k

  order_for-OrderShape : (linha : String) → OrderShape casing d (order_for casing linha d)
  unfolding order_for
  order_for-OrderShape linha =
      either _ (with_size _) (either _ english (either _ round (either _ pie (with_size none))))

-- the order of a result that has one
abbrev order_or : CakeOrder → Result CakeOrder → CakeOrder
order_or base (fails problem) = base
order_or base (priced o) = o

module _ (casing : Totals.Casing) where
  -- The price of an order is the one of the entries that it leaves in a draft.
  left-OrderShape :
      (d : Dados) (p : Totals.Pedido)
      → OrderShape casing (priced_part d) p
      → calcular_total casing (record {
        categoria = p.categoria;
        tamanho = some (updated d.tamanho p.tamanho);
        fruta_ou_nozes = if is_some p.tamanho then p.fruta_ou_nozes else d.fruta_ou_nozes;
        pedacos = none;
        produto = some (updated d.produto p.produto);
        cobertura = none;
        kit_festou = p.kit_festou;
        quantidade = some (pos 1);
      })
        ≡ calcular_total casing p
  unfolding calcular_total base_price category_price order_of priced_part
  left-OrderShape d _ (with_size f) = refl
  left-OrderShape d _ english = refl
  left-OrderShape d _ round = refl
  left-OrderShape d _ pie = refl

module _ (c : Surroundings) where
  pub repriced-cake_order :
      (d : Dados)
      → let o = cake_order c d in
        calcular_total c.casing (repriced (update d o)) ≡ calcular_total c.casing o.priced
  unfolding repriced update cake_order monta_pedido_final
  repriced-cake_order d = left-OrderShape c.casing d _ (
      order_for-OrderShape c.casing (priced_part d)
        (linha_canonica c.casing (or_text d.linha "tradicional")))

  -- An order with its total leaves a draft whose entries have that price.
  pub matches-with_total :
      (extra : ℕ) (d : Dados) (base o : CakeOrder) (r : Result (ℤ × ℕ))
      → calcular_total c.casing (repriced (update d base)) ≡ r
      → with_total base r ≡ priced o
      → matches
          (or_zero o.valor_total + extra)
          o.serve_pessoas
          extra
          (calcular_total c.casing (repriced (update d o)))
        ≡ true
  unfolding with_total matches update repriced
  matches-with_total extra d base o (fails problem) e h = ground arith
  matches-with_total extra d base o (priced (t, people)) e h =
      subst
        (λ o.
          matches (or_zero o.valor_total + extra) o.serve_pessoas extra
            (calcular_total c.casing (repriced (update d o)))
          ≡ true)
        (ap (order_or base) h) (rw e (ground arith))
