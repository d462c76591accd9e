-- ===== src/Tests/Totals.antt =====
-- Totals of cakes.
use chokobot.Prices.Totals.{Casing, preco_tradicional, calcular_total}
use chokobot.Prices.Drafts.{Dados, monta_pedido_final, normaliza_produto}
use chokobot.Prices.Drafts.Computed.{is_priced, has_price, is_priced-calcular_total}
use chokobot.Prices.Drafts.Recognised.{chosen, calcular_total-normaliza_produto}
use chokobot.Prices.Additions.{Dearer, preco_tradicional-Dearer}
use chokobot.Common.{◌≡◌, refl, true, false, none, some, inl}

-- texts that are in the case that is asked for
abbrev as_written : Casing
as_written = record { upper = λ t. t; lower = λ t. t; title = λ t. t }

-- a cake of the line simples, with neither a size nor a product
abbrev simples : Dados
simples = record {
  linha = some "simples";
  tamanho = none;
  produto = none;
  adicional = none;
  kit_festou = false;
}

is_priced-calcular_total_example :
    is_priced (calcular_total as_written (monta_pedido_final as_written simples))
    ≡ has_price as_written simples
is_priced-calcular_total_example = is_priced-calcular_total as_written simples

-- The line simples has no total.
simples_fails : has_price as_written simples ≡ false
unfolding has_price
simples_fails = refl

calcular_total-normaliza_produto_example :
    is_priced (
      calcular_total as_written
        (monta_pedido_final as_written (chosen as_written "gourmet" "Bolo Pudim" simples)))
    ≡ true
unfolding normaliza_produto
calcular_total-normaliza_produto_example =
    calcular_total-normaliza_produto as_written "gourmet" "pudim" "Bolo Pudim" simples refl
      (inl refl) refl

preco_tradicional-Dearer_example :
    Dearer
      (preco_tradicional as_written "B7" none)
      (preco_tradicional as_written "B7" (some "Morango"))
preco_tradicional-Dearer_example = preco_tradicional-Dearer as_written "B7" (some "Morango")
