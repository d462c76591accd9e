-- ===== src/Flows/Cake/Draft.antt =====
-- What the draft of a cake becomes: `_monta_pedido_final` with the entries that no price reads, the
-- total, and `_prepara_dados_para_salvar` (app/services/encomendas.py).
use chokobot.Schedule.Calendar.{ℤ, pos, negsuc}
use chokobot.Prices.Totals.{Result, fails, priced, calcular_total}
use chokobot.Prices.Drafts.{or_text, is_missing, linha_canonica, is_sized, monta_pedido_final}
use chokobot.Prices.Drafts
use chokobot.Flows.Delivery.{Payment}
use chokobot.Flows.Cake.{CakeOrder, Dados, Saved, Surroundings, or_blank, or_none}
use chokobot.Common.{
  ℕ, ◌*◌, String, ◌&&◌, Option, none, some, [], ◌∷◌, strip, join, one_of, is_some, if◌then◌else◌,
}

-- a price in whole reais, in cents; the quantity is 1, so that no total is negative
abbrev pub in_cents : ℤ → ℕ
in_cents (pos n) = n * 100
in_cents (negsuc n) = 0

-- the entries of the draft that the price depends on
unfoldable pub priced_part : Dados → Drafts.Dados
priced_part d = record {
  linha = d.linha;
  tamanho = d.tamanho;
  produto = d.produto;
  adicional = d.adicional;
  kit_festou = d.kit_festou;
}

-- an f-string of `dados.get("mousse")`, and of `dados.get("mousse", "")`
abbrev mousse_or_none : Option (Option String) → String
mousse_or_none none = "None"
mousse_or_none (some m) = or_none m

abbrev mousse_or_blank : Option (Option String) → String
mousse_or_blank none = ""
mousse_or_blank (some m) = or_none m

-- `dados.update(pedido)`, for an entry that `pedido` may have
abbrev pub updated {ℓ} : {A : Type ℓ} → A → Option A → A
updated old none = old
updated old (some new) = new

-- `pagamento.get("forma") or d.get("forma_pagamento") or "Pendente"`
abbrev pub forma_of : Option Payment → String
unfolding or_text
forma_of none = "Pendente"
forma_of (some p) = or_text p.forma "Pendente"

-- `float(d.get(key) or 0)`
abbrev pub or_zero : Option ℕ → ℕ
or_zero none = 0
or_zero (some n) = n

abbrev troco_of : Option Payment → Option ℕ
troco_of none = none
troco_of (some p) = p.troco_para

-- The order with its total and the people that it serves, from `calcular_total` on.
unfoldable pub with_total : CakeOrder → Result (ℤ × ℕ) → Result CakeOrder
with_total o (fails e) = fails e
with_total o (priced (total, serve)) =
    priced (record o { valor_total = some (in_cents total); serve_pessoas = some serve })

-- Only an order that is not for a party has entries for the kit, the fruit and the sweets, and only
-- one of the category tradicional has the fruit.
unfoldable pub update : Dados → CakeOrder → Dados
update d o =
    let shared = is_some o.doces_itens in
    record d {
      categoria = o.priced.categoria;
      tamanho = updated d.tamanho o.priced.tamanho;
      produto = updated d.produto o.priced.produto;
      fruta_ou_nozes =
          if shared && is_some o.priced.tamanho then o.priced.fruta_ou_nozes else d.fruta_ou_nozes;
      kit_festou = if shared then o.priced.kit_festou else d.kit_festou;
      descricao = elim o.descricao [ none ↦ d.descricao | some t ↦ some t ];
      data_entrega = o.data_entrega;
      horario_retirada = o.horario_retirada;
      doces_itens = updated d.doces_itens o.doces_itens;
      doces_total = if shared then o.doces_total else d.doces_total;
      doces_forminha = updated d.doces_forminha o.doces_forminha;
      valor_total = o.valor_total;
      serve_pessoas = o.serve_pessoas;
    }

-- `a or b` for entries
unfoldable pub or_entry : Option String → Option String → Option String
unfolding is_missing
or_entry a b = if is_missing a then b else a

module _ (c : Surroundings) where
  -- the description of an order by its line
  unfoldable pub description : Dados → Option String
  unfolding or_text linha_canonica is_sized priced_part
  description d =
      let linha = linha_canonica c.casing (or_text d.linha "tradicional") in
      if is_sized c.casing linha (priced_part d)
      then some (
          strip (
            or_text d.descricao (
              join "" (
                or_blank d.massa
                ∷ " | "
                ∷ or_none d.recheio
                ∷ " + "
                ∷ mousse_or_none d.mousse
                ∷ []))))
      else if one_of linha ("gourmet" ∷ "redondo" ∷ "torta" ∷ [])
      then none
      else some (or_blank d.descricao)

  -- `_monta_pedido_final`, and the colours of the paper cups, which its callers add
  unfoldable pub cake_order : Dados → CakeOrder
  unfolding priced_part description monta_pedido_final
  cake_order d = record {
    priced = monta_pedido_final c.casing (priced_part d);
    data_entrega = d.data_entrega;
    horario_retirada = d.horario_retirada;
    descricao = description d;
    doces_itens = some d.doces_itens;
    doces_total = d.doces_total;
    doces_forminha = some d.doces_forminha;
    valor_total = none;
    serve_pessoas = none;
  }

  unfoldable pub totalled : CakeOrder → Result CakeOrder
  unfolding with_total
  totalled o = with_total o (calcular_total c.casing o.priced)

  unfoldable pub fruta_ou_nozes : Option String → Option String
  unfolding one_of
  fruta_ou_nozes none = none
  fruta_ou_nozes (some adicional) =
      if one_of adicional ("" ∷ "nenhum" ∷ "nao" ∷ "não" ∷ [])
      then none
      else some (c.casing.title adicional)

  unfoldable pub save_date : Option String → Option String
  save_date none = none
  save_date (some date) = elim (c.iso_date date) [ none ↦ some date | some iso ↦ some iso ]

  -- `_prepara_dados_para_salvar`
  unfoldable pub prepara_dados_para_salvar : Dados → Saved
  unfolding or_text or_entry fruta_ou_nozes save_date
  prepara_dados_para_salvar d = record {
    dados = d;
    descricao = strip (
        or_text d.descricao (
          or_text d.sabor (
            or_text d.produto (
              join "" (
                or_blank d.massa
                ∷ " | "
                ∷ or_blank d.recheio
                ∷ " + "
                ∷ mousse_or_blank d.mousse
                ∷ [])))));
    categoria = c.casing.lower (strip (or_text d.categoria (or_text d.linha "tradicional")));
    fruta_ou_nozes = fruta_ou_nozes (or_entry d.adicional d.fruta_ou_nozes);
    valor_total = or_zero d.valor_total;
    data_entrega = save_date d.data_entrega;
    forma_pagamento = forma_of d.pagamento;
    troco_para = troco_of d.pagamento;
    taxa_entrega = or_zero d.taxa_entrega;
  }
